-- ===== src/Failure/Truncation.antt =====
-- truncate_for_storage of crates/eddyq-core/src/error.rs: the size of what is kept, and where it is
-- cut.
use Prim.Native.String.{◌++◌ as append, len, slice}
use text.Mathlib.Text.{is_char_boundary}
use text.Mathlib.TextPositions.{len-append, boundary-zero}
use text.Mathlib.TextEquality.{slice-prefix}
use eddyq.Prelude.{
  ℕ, zero, suc, ◌+◌, ◌-◌, ◌≤◌, ◌<◌, ◌≡◌, refl, sym, ap, ◌∙◌, arith, true, false, String, leb,
  Bool-cases, inl, inr,
}
use eddyq.Prelude.Decimal.{len-digits-le, len-digits_mono}
use eddyq.Failure.{decimal, truncation_marker, boundary_before, truncate_for_storage}

len-marker : (n : ℕ) → len (truncation_marker n) ≡ 14 + (len (decimal n) + 7)
unfolding truncation_marker
len-marker n =
    rw
      (len-append "...[truncated " (append (decimal n) " bytes]"), len-append (decimal n) " bytes]")
      refl

pub marker-short : (n : ℕ) → len (truncation_marker n) ≤ 41
unfolding decimal
marker-short n = omega (arith, len-marker n, len-digits-le 20 n)

marker_mono : (m n : ℕ) → m ≤ n → len (truncation_marker m) ≤ len (truncation_marker n)
unfolding decimal
marker_mono m n h = omega (arith, len-marker m, len-marker n, len-digits_mono 20 m n h)

-- The loop stops at a boundary, no later than where it starts.
boundary_before-le : (s : String) (cut : ℕ) → boundary_before s cut ≤ cut
unfolding boundary_before
boundary_before-le s zero = omega arith
boundary_before-le s (suc cut) = elim (Bool-cases (is_char_boundary s (suc cut))) [
  | inl e ↦ rw e (omega arith)
  | inr e ↦ rw e (omega (arith, boundary_before-le s cut))
]

boundary_before-boundary :
    (s : String) (cut : ℕ) → is_char_boundary s (boundary_before s cut) ≡ true
unfolding boundary_before
boundary_before-boundary s zero = boundary-zero s
boundary_before-boundary s (suc cut) = elim (Bool-cases (is_char_boundary s (suc cut))) [
  | inl e ↦ rw e e
  | inr e ↦ rw e (boundary_before-boundary s cut)
]

-- The text up to a boundary has as many bytes.
len-kept : (s : String) (k : ℕ) → is_char_boundary s k ≡ true → len (slice s 0 k) ≡ k
len-kept s k h = ground arith

-- The budget is kept: the result has at most `max_bytes` bytes, if these are wider than the marker.
pub truncate_for_storage-le :
    (s : String) (max_bytes : ℕ)
    → 41 ≤ max_bytes
    → len (truncate_for_storage s max_bytes) ≤ max_bytes
unfolding truncate_for_storage
truncate_for_storage-le s max_bytes wide = elim (Bool-cases (leb (len s) max_bytes)) [
  | inl e ↦ rw e (ground arith)
  | inr e ↦
      let reserve = len (truncation_marker (len s)) in
      let cut = boundary_before s (max_bytes - reserve) in
      rw
        (
          e,
          len-append (slice s 0 cut) (truncation_marker (len s - cut)),
          len-kept s cut (boundary_before-boundary s (max_bytes - reserve)),
        )
        (omega (
          arith,
          boundary_before-le s (max_bytes - reserve),
          marker-short (len s),
          marker_mono (len s - cut) (len s) (omega arith),
        ))
]

-- A text that fits is stored as it is. Of a longer one a beginning of whole characters is stored,
-- then the marker with the number of bytes that are dropped.
pub truncate_for_storage_lem :
    (s : String) (max_bytes : ℕ)
    → (len s ≤ max_bytes → truncate_for_storage s max_bytes ≡ s)
      × (max_bytes < len s
          → (kept : String) × (dropped : String) × (append kept dropped ≡ s)
            × (truncate_for_storage s max_bytes ≡ append kept (truncation_marker (len dropped))))
unfolding truncate_for_storage
truncate_for_storage_lem s max_bytes = (
  λ h. rw (let fits : leb (len s) max_bytes ≡ true = ground arith in fits) refl,
  λ h.
      let reserve = len (truncation_marker (len s)) in
      let cut = boundary_before s (max_bytes - reserve) in
      let (rest, whole) = slice-prefix s cut in
      let long : leb (len s) max_bytes ≡ false = ground arith in
      let size : len s ≡ cut + len rest =
        ap len (sym whole)
        ∙ len-append (slice s 0 cut) rest
        ∙ ap (λ n. n + len rest)
            (len-kept s cut (boundary_before-boundary s (max_bytes - reserve))) in
      (
        slice s 0 cut,
        rest,
        whole,
        rw long (ap (λ n. append (slice s 0 cut) (truncation_marker n)) (omega (arith, size))),
      ),
)
