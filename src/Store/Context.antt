-- ===== src/Store/Context.antt =====
-- The surroundings of a transaction: NOW(), which Postgres keeps fixed through a transaction and
-- which stands for `Utc::now()` too, and what the crate calls of serde_json, of cron and of Postgres.
-- The error type is that of crates/eddyq-core/src/error.rs, without its message texts.
use eddyq.Prelude.{ℕ, Bool, String, Option, List}
use eddyq.Store.Rows.{Json, DynEnqueue}

pub data Error : Type 0 where
  database migration serde unknown_kind cron invalid_argument already_running not_running : Error
  unsupported backend : Error

pub data Result {ℓ} (A : Type ℓ) : Type ℓ where
  ok : A → Result A
  err : Error → Result A

infixl 5 ◌>>=◌
abbrev pub ◌>>=◌ {ℓ κ} : {A : Type ℓ} {B : Type κ} → Result A → (A → Result B) → Result B
ok a >>= f = f a
err e >>= f = err e

pub record Env : Type 0 where
  pub now : ℕ
  -- `a LIKE b`
  pub like : String → String → Bool
  -- serde_json: a number, a text and a time as a value, an object from its members, and an object with one
  -- more member, or none where the value is no object
  pub number : ℕ → Json
  pub text : String → Json
  pub timestamp : ℕ → Json
  pub object : List (String × Json) → Json
  pub insert : String → Json → Json → Option Json
  -- serde_json::to_value and from_value at DynEnqueue
  pub to_value : DynEnqueue → Json
  pub from_value : Json → Option DynEnqueue
  -- cron: an expression, if it parses, as the first time that it fires after a given time, if any
  pub cron : String → Option (ℕ → Option ℕ)
