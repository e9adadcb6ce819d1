-- ===== src/Failure.antt =====
-- crates/eddyq-core/src/error.rs: what a handler's failure stores in a job's error log. Texts are
-- UTF-8, and `len` counts bytes.
pub mod Truncation
use Prim.Native.String.{◌++◌ as append, len, slice}
use text.Mathlib.Text.{is_char_boundary}
use eddyq.Prelude.{
  ℕ, zero, suc, ◌-◌, ◌/◌, ◌%◌, Bool, String, Option, none, some, List, [], ◌∷◌, ◌++◌, leb, ltb,
  if◌then◌else◌,
}
use eddyq.Prelude.Decimal.{digits}
use eddyq.Store.{Json, Env}

pub data Directive : Type 0 where
  cancel : Directive
  retry : (delay_ms : ℕ) → Directive

pub record HandlerFailure : Type 0 where
  pub message : String
  pub name : Option String
  pub stack : Option String
  pub directive : Option Directive

abbrev pub max_error_message_bytes : ℕ
max_error_message_bytes = 2048

abbrev pub max_error_stack_bytes : ℕ
max_error_stack_bytes = 4096

abbrev pub from_message : String → HandlerFailure
from_message message = record { message = message; name = none; stack = none; directive = none }

-- `{n}` of format!, at a usize: 20 digits are enough below 2 ^ 64.
unfoldable pub decimal : ℕ → String
unfolding digits
decimal n = digits 20 n

unfoldable pub truncation_marker : ℕ → String
unfolding decimal
truncation_marker dropped = append "...[truncated " (append (decimal dropped) " bytes]")

-- `while !s.is_char_boundary(cut) { cut -= 1 }`: 0 is a boundary.
unfoldable pub boundary_before : String → ℕ → ℕ
boundary_before s zero = zero
boundary_before s (suc cut) =
    let lower = boundary_before s cut in if is_char_boundary s (suc cut) then suc cut else lower

unfoldable pub truncate_for_storage : String → ℕ → String
unfolding truncation_marker boundary_before
truncate_for_storage s max_bytes =
    if leb (len s) max_bytes
    then s
    else let reserve = len (truncation_marker (len s)) in
      let cut = boundary_before s (max_bytes - reserve) in
      append (slice s 0 cut) (truncation_marker (len s - cut))

abbrev pub if_some {ℓ} : {A : Type ℓ} → Option A → (A → List (String × Json)) → List (String × Json)
if_some none f = []
if_some (some a) f = f a

abbrev pub directive_members : Env → Directive → List (String × Json)
directive_members env cancel = ("directive", env.text "cancel") ∷ []
directive_members env (retry delay_ms) =
    ("directive", env.text "retry") ∷ ("retryDelayMs", env.number delay_ms) ∷ []

-- The members of the stored entry, in the order in which they are inserted.
unfoldable pub entry_members : Env → HandlerFailure → List (String × Json)
unfolding truncate_for_storage
entry_members env f =
    (("at", env.timestamp env.now)
      ∷ ("message", env.text (truncate_for_storage f.message max_error_message_bytes))
      ∷ [])
    ++ (if_some f.name (λ n. ("name", env.text n) ∷ [])
        ++ (if_some f.stack
              (λ s. ("stack", env.text (truncate_for_storage s max_error_stack_bytes)) ∷ [])
            ++ if_some f.directive (directive_members env)))

unfoldable pub as_error_entry : Env → HandlerFailure → Json
unfolding entry_members
as_error_entry env f = env.object (entry_members env f)
