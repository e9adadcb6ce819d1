-- ===== src/Batch/Callback.antt =====
-- `build_callback_dyn` of crates/eddyq-core/src/batch.rs: the callback job of a batch.
use Prim.Native.String.{◌++◌}
use eddyq.Prelude.{ℕ, ◌+◌, String, none, some, [], ◌∷◌}
use eddyq.Prelude.Decimal.{digits}
use eddyq.Store.{DynEnqueue, Json, Env}

pub record BatchSettleSummary : Type 0 where
  pub total : ℕ
  pub completed : ℕ
  pub failed : ℕ
  pub cancelled : ℕ
  pub duration_ms : ℕ

unfoldable pub show : ℕ → String
unfolding digits
show n = digits (n + 1) n

-- `eddyq.batch.{id}.callback`
unfoldable pub callback_key : ℕ → String
unfolding show
callback_key id = "eddyq.batch." ++ show id ++ ".callback"

unfoldable pub envelope : Env → ℕ → BatchSettleSummary → Json
envelope env id s = env.object (
    ("batchId", env.number id)
    ∷ ("total", env.number s.total)
    ∷ ("completed", env.number s.completed)
    ∷ ("failed", env.number s.failed)
    ∷ ("cancelled", env.number s.cancelled)
    ∷ ("durationMs", env.number s.duration_ms)
    ∷ [])

-- The payload with the envelope as a member; a payload that is no object is put beside it.
unfoldable pub with_envelope : Env → Json → Json → Json
with_envelope env payload e = elim (env.insert "_eddyq_batch" e payload) [
  | some merged ↦ merged
  | none ↦ env.object (("_eddyq_batch", e) ∷ ("_payload", payload) ∷ [])
]

unfoldable pub build_callback_dyn : Env → DynEnqueue → ℕ → BatchSettleSummary → DynEnqueue
unfolding callback_key envelope with_envelope
build_callback_dyn env spec id summary = record spec {
  payload = with_envelope env spec.payload (envelope env id summary);
  unique_key = some (callback_key id);
}
