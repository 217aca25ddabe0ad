-- ===== src/Payment/Reconcile.antt =====
-- internal/usecase/payment/reconcile_psp.go, with `IsTerminal` of the provider's statuses in
-- internal/port/out/payment_provider.go.
pub mod Counts
pub mod Frozen
pub mod Agreement
pub mod Effects
use backend_go_role_organiza.Prelude.{
  ℕ, suc, String, ◌==◌, Bool, true, false, ◌||◌, Option, List, [], ◌∷◌, length, is_set, eqb,
  if◌then◌else◌, ◌-◌, join, member,
}
use backend_go_role_organiza.Payment.Domain.{
  PaymentTransaction, ProviderPayment, mark_completed, mark_failed, mark_cancelled,
}
use backend_go_role_organiza.World.{
  World, Env, Action, Result, ok, err, pure, attempt, context, ◌>>=◌, time_now, request,
}
use backend_go_role_organiza.Payment.Transactions.{find_pending_older_than, update}

pub record ReconcileResult : Type 0 where
  pub checked : ℕ
  pub updated : ℕ
  pub failed : ℕ

-- `PaymentProviderStatus.IsTerminal`
unfoldable pub is_provider_terminal : String → Bool
is_provider_terminal s =
    member s ("RECEIVED" ∷ "CONFIRMED" ∷ "OVERDUE" ∷ "REFUNDED" ∷ "CANCELED" ∷ [])

-- The switch on the provider's status.
unfoldable pub correct : String → ℕ → PaymentTransaction → PaymentTransaction
correct status now tx =
    if member status ("RECEIVED" ∷ "CONFIRMED" ∷ [])
    then mark_completed now tx
    else if member status ("REFUNDED" ∷ "CANCELED" ∷ [])
    then mark_cancelled status now tx
    else if status == "OVERDUE"
    then mark_failed "OVERDUE" now tx
    else mark_failed status now tx

unfoldable pub count_failed : ReconcileResult → ReconcileResult
count_failed r = record r { failed = suc r.failed }

unfoldable pub count_updated : ReconcileResult → ReconcileResult
count_updated r = record r { updated = suc r.updated }

abbrev pub day : ℕ
day = 86400000000000

module _ (env : Env) where
  unfoldable pub after_update : ReconcileResult → Result (Unit {0}) → Action ReconcileResult
  unfolding count_updated count_failed
  after_update result (ok _) = pure (count_updated result)
  after_update result (err e) = pure (count_failed result)

  unfoldable pub correct_one :
      PaymentTransaction → ReconcileResult → String → Action ReconcileResult
  unfolding after_update
  correct_one tx result status = do
    now ← time_now env
    answer ← attempt (update env (correct status now tx))
    after_update result answer

  unfoldable pub after_get :
      PaymentTransaction → ReconcileResult → Result ProviderPayment → Action ReconcileResult
  unfolding correct_one count_failed
  after_get tx result (err e) = pure (count_failed result)
  after_get tx result (ok p) =
      if is_provider_terminal p.status then correct_one tx result p.status else pure result

  -- One turn of the loop.
  unfoldable pub reconcile_one : PaymentTransaction → ReconcileResult → Action ReconcileResult
  unfolding after_get
  reconcile_one tx result =
      if is_set tx.provider_transaction_id
      then (do
        answer ← attempt (request env (λ n. env.payment n tx.provider_transaction_id))
        after_get tx result answer)
      else pure result

  unfoldable pub reconcile_all : List PaymentTransaction → ReconcileResult → Action ReconcileResult
  unfolding reconcile_one
  reconcile_all [] result = pure result
  reconcile_all (tx ∷ txs) result = do r ← reconcile_one tx result; reconcile_all txs r

  -- A zero `filter.From` means 24 hours ago.
  unfoldable pub threshold : ℕ → Action ℕ
  threshold from = if eqb from 0 then (do now ← time_now env; pure (now - day)) else pure from

  unfoldable pub execute : ℕ → Action ReconcileResult
  unfolding threshold reconcile_all
  execute from = do
    since ← threshold from
    txs ←
        context (join ("reconcile psp: find pending older than " ∷ env.rfc3339 since ∷ []))
          (find_pending_older_than env since)
    reconcile_all txs (record { checked = length txs; updated = 0; failed = 0 })
