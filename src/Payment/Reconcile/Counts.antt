-- ===== src/Payment/Reconcile/Counts.antt =====
-- What a reconciliation counts.
use backend_go_role_organiza.Prelude.{
  ℕ, suc, ◌+◌, ◌≤◌, ◌≡◌, refl, ◌∙◌, subst, List, [], ◌∷◌, length, arith, Bool-cases, inl, inr,
  is_set,
}
use backend_go_role_organiza.Payment.Domain.{PaymentTransaction, ProviderPayment}
use backend_go_role_organiza.World.{
  World, Env, Action, Result, ok, err, pure, raise, attempt, either, ◌>>=◌, time_now,
}
use backend_go_role_organiza.World.Inversion.{bind-eq-ok}
use backend_go_role_organiza.Payment.Reconcile.{
  ReconcileResult, is_provider_terminal, after_update, correct_one, after_get, reconcile_one,
  reconcile_all, execute, count_updated, count_failed,
}

-- `n` transactions are counted at most, and the call did not fail.
abbrev Counted : ℕ → ReconcileResult → Result ReconcileResult → Type 0
Counted n r (ok r') = (r'.checked ≡ r.checked) × (r'.updated + r'.failed ≤ r.updated + r.failed + n)
Counted n r (err e) = ⊥

module _ (env : Env) where
  after_update-Counted :
      (r : ReconcileResult) (a : Result (Unit {0})) (w : World)
      → Counted 1 r (after_update env r a w).0
  unfolding after_update pure count_updated count_failed
  after_update-Counted r (ok _) w = (refl, omega arith)
  after_update-Counted r (err _) w = (refl, omega arith)

  after_get-Counted :
      (tx : PaymentTransaction) (r : ReconcileResult) (a : Result ProviderPayment) (w : World)
      → Counted 1 r (after_get env tx r a w).0
  unfolding after_get correct_one pure count_failed ◌>>=◌ either time_now attempt
  after_get-Counted tx r (err e) w = (refl, omega arith)
  after_get-Counted tx r (ok p) w = elim (Bool-cases (is_provider_terminal p.status)) [
    | inl hit ↦ rw hit (after_update-Counted r _ _)
    | inr miss ↦ rw miss (refl, omega arith)
  ]

  reconcile_one-Counted :
      (tx : PaymentTransaction) (r : ReconcileResult) (w : World)
      → Counted 1 r (reconcile_one env tx r w).0
  unfolding reconcile_one pure ◌>>=◌ either attempt
  reconcile_one-Counted tx r w = elim (Bool-cases (is_set tx.provider_transaction_id)) [
    | inl hit ↦ rw hit (after_get-Counted tx r _ _)
    | inr miss ↦ rw miss (refl, omega arith)
  ]

  widen :
      (n : ℕ) (r r' : ReconcileResult) (a : Result ReconcileResult)
      → Counted 1 r (ok r')
      → Counted n r' a
      → Counted (suc n) r a
  widen n r r' (ok x) h k = (k.0 ∙ h.0, omega (arith, h.1, k.1))
  widen n r r' (err e) h k = k

  then-Counted :
      (n : ℕ) (r : ReconcileResult) (a : Result ReconcileResult) (w : World)
      (f : ReconcileResult → Action ReconcileResult)
      → Counted 1 r a
      → ((r' : ReconcileResult) → Counted n r' (f r' w).0)
      → Counted (suc n) r (either a f raise w).0
  unfolding either
  then-Counted n r (ok r') w f h k = widen n r r' _ h (k r')
  then-Counted n r (err e) w f h k = absurd h

  reconcile_all-Counted :
      (txs : List PaymentTransaction) (r : ReconcileResult) (w : World)
      → Counted (length txs) r (reconcile_all env txs r w).0
  unfolding reconcile_all pure ◌>>=◌
  reconcile_all-Counted [] r w = (refl, omega arith)
  reconcile_all-Counted (tx ∷ txs) r w =
      then-Counted (length txs) r _ _ (reconcile_all env txs) (reconcile_one-Counted tx r w)
        (λ r'. reconcile_all-Counted txs r' _)

  reconcile_all-counts :
      (txs : List PaymentTransaction) (w : World) (r : ReconcileResult)
      → (reconcile_all env txs (record { checked = length txs; updated = 0; failed = 0 }) w).0
        ≡ ok r
      → r.updated + r.failed ≤ r.checked
  reconcile_all-counts txs w r e =
      let start : ReconcileResult = record { checked = length txs; updated = 0; failed = 0 } in
      let h : Counted (length txs) start (ok r) =
        subst (Counted (length txs) start) e (reconcile_all-Counted txs start w) in
      omega (arith, h.0, h.1)

-- A reconciliation never counts a transaction both as updated and as failed: the two counts
-- together are at most the number of transactions checked.
pub reconcile_counts :
    (env : Env) (from : ℕ) (w : World) (r : ReconcileResult)
    → (execute env from w).0 ≡ ok r
    → r.updated + r.failed ≤ r.checked
unfolding execute
reconcile_counts env from w r e =
    let (since, _, e') = bind-eq-ok _ _ _ _ e in
    let (txs, _, e'') = bind-eq-ok _ _ _ _ e' in reconcile_all-counts env txs _ r e''
