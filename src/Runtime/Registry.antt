-- ===== src/Runtime/Registry.antt =====
-- The handlers of a process: the WorkerRegistry of crates/eddyq-core/src/worker.rs, a map from kinds
-- to handlers. What a handler does is not read; a job is claimed only if its kind has one.
use eddyq.Prelude.{
  ◌≡◌, refl, sym, ap, subst, Bool, true, false, String, Option, none, some, List, [], ◌∷◌, map,
  any_text, str_eq, eq_iff, All, Bool-cases, inl, inr, if◌then◌else◌, &&-right,
}
use eddyq.Sql.{find, delete}
use eddyq.Sql.Order.{All-map}
use eddyq.Store.{Db, Result, ok, err, unknown_kind}
use eddyq.Fetch.Claim.{Poll, claim_batch}
use eddyq.Fetch.Claim.Lanes.{is_ready}
use eddyq.Traces.{Reachable, Reachable-IsCounted}
use eddyq.Claiming.Rows.{IsClaim, claim_batch-IsClaim}

-- HashMap<String, Handler>
abbrev pub WorkerRegistry : Type 0 → Type 0
WorkerRegistry Handler = List (String × Handler)

module _ {Handler : Type 0} where
  abbrev pub is_for : String → String × Handler → Bool
  is_for kind entry = str_eq entry.0 kind

  -- HashMap::insert replaces the entry of the kind.
  unfoldable pub register_dyn : String → Handler → WorkerRegistry Handler → WorkerRegistry Handler
  register_dyn kind f registry = (kind, f) ∷ delete (is_for kind) registry

  abbrev found : Option (String × Handler) → Result Handler
  found none = err unknown_kind
  found (some entry) = ok entry.1

  unfoldable pub get_handler : String → WorkerRegistry Handler → Result Handler
  get_handler kind registry = found (find (is_for kind) registry)

  unfoldable pub kinds_of : WorkerRegistry Handler → List String
  kinds_of registry = map (λ (entry : String × Handler). entry.0) registry

  -- A kind of the registry has a handler.
  kinds_of-handler :
      (kind : String) (registry : WorkerRegistry Handler)
      → any_text kind (kinds_of registry) ≡ true
      → (f : Handler) × (get_handler kind registry ≡ ok f)
  unfolding kinds_of get_handler find
  kinds_of-handler kind [] h = absurd (let q : false ≡ true = h in cc)
  kinds_of-handler kind (entry ∷ registry) h = elim (Bool-cases (str_eq entry.0 kind)) [
    | inl e ↦ rw e (entry.1, refl)
    | inr e ↦ rw e (kinds_of-handler kind registry (rw e at h))
  ]

  -- A handler that is registered is the one that its kind finds, and the other kinds keep theirs.
  pub get_handler-register_dyn :
      (kind other : String) (f : Handler) (registry : WorkerRegistry Handler)
      → get_handler other (register_dyn kind f registry)
        ≡ (if str_eq kind other then ok f else get_handler other registry)
  unfolding get_handler register_dyn find delete
  get_handler-register_dyn kind other f registry = elim (Bool-cases (str_eq kind other)) [
    | inl e ↦ rw e refl
    | inr e ↦ rw e (ap found (kept registry e))
  ]
    where
      kept :
          (rows : WorkerRegistry Handler)
          → str_eq kind other ≡ false
          → find (is_for other) (delete (is_for kind) rows) ≡ find (is_for other) rows
      kept [] e = refl
      kept (x ∷ rows) e = elim (Bool-cases (str_eq x.0 kind)) [
        | inl q ↦
            let differs : str_eq x.0 other ≡ false =
              subst (λ k. str_eq k other ≡ false) (sym ((eq_iff x.0 kind).0 q)) e in
            rw (q, differs) (kept rows e)
        | inr q ↦ rw (q, kept rows e) refl
      ]

  -- Each job that a claim for the registry's kinds returns, of a database in any history, has a
  -- handler: the worker's branch for an unknown kind is not taken.
  pub claim_batch-handled :
      (registry : WorkerRegistry Handler) (p : Poll) (db : Db)
      → Reachable db
      → p.kinds ≡ kinds_of registry
      → All (λ c. (f : Handler) × (get_handler c.kind registry ≡ ok f)) (claim_batch p db).0
  unfolding is_ready
  claim_batch-handled registry p db r same =
      All-map (IsClaim p db (claim_batch p db).1.jobs) _
        (λ c claim.
          let known : any_text claim.row.kind p.kinds ≡ true = &&-right _ _ claim.ready in
          let kind : any_text c.kind (kinds_of registry) ≡ true =
            rw claim.kind (subst (λ ks. any_text claim.row.kind ks ≡ true) same known) in
          kinds_of-handler c.kind registry kind)
        (claim_batch p db).0 (claim_batch-IsClaim p db (Reachable-IsCounted r)).0
