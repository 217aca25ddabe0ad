-- ===== src/Payment/Callback/Handlers.antt =====
-- `executeApproved`, `executeFailed` and `executeCancelled` of handle_payment_callback.go.
use backend_go_role_organiza.Prelude.{
  ℕ, String, Bool, true, false, ◌&&◌, List, [], ◌∷◌, ◌++◌, is_set, if◌then◌else◌,
}
use backend_go_role_organiza.ApiErr.{plain}
use backend_go_role_organiza.Payment.Domain.{
  PaymentTransaction, PaymentInstallment, PaymentCallbackPayload, is_terminal, mark_completed,
  mark_failed, mark_cancelled, method_text,
}
use backend_go_role_organiza.World.{
  Env, Action, pure, attempt, context, ◌>>=◌, ◌>>◌, either, modify, when, ignore, time_now, driver,
}
use backend_go_role_organiza.Payment.Transactions.{find_by_provider_transaction_id, update}
use backend_go_role_organiza.Payment.Installments.{find_by_ids, mark_paid_batch}
use backend_go_role_organiza.Payment.Allocation.{allocate}
use backend_go_role_organiza.Payment.Subledger.{append_payment_confirmation}

-- Which of the optional dependencies are not nil.
pub record Wiring : Type 0 where
  pub has_allocation : Bool
  pub has_subledger : Bool
  pub has_notifications : Bool
  pub has_signaler : Bool
  pub has_starter : Bool

abbrev is_nonempty : List String → Bool
is_nonempty [] = false
is_nonempty (_ ∷ _) = true

module _ (env : Env) where
  -- The loop of `runAllocation`: a failure is logged and the next installment is tried.
  unfoldable pub allocate_all : List PaymentInstallment → Action (Unit {0})
  allocate_all [] = pure tt
  allocate_all (i ∷ is) = do ignore (allocate env i); allocate_all is

  unfoldable pub run_allocation : PaymentTransaction → Action (Unit {0})
  unfolding allocate_all
  run_allocation tx =
      ignore (do installments ← find_by_ids env tx.installment_ids; allocate_all installments)

  -- The notification is handed to `CreateNotificacaoUseCase`, which may fail.
  unfoldable pub notify_participant : PaymentTransaction → Action (Unit {0})
  notify_participant tx = do
    driver env plain
    modify (λ w. record w {
      notifications =
          w.notifications
          ++ record {
            usuario_id = tx.user_id;
            transaction_id = tx.id;
            event_id = tx.event_id;
            amount_cents = tx.amount_cents;
          }
            ∷ [];
    })

  unfoldable pub settle_installments : Wiring → String → ℕ → PaymentTransaction → Action (Unit {0})
  unfolding run_allocation
  settle_installments wiring provider_id now tx = do
    answer ← attempt (
        mark_paid_batch env tx.installment_ids tx.id now (method_text tx.payment_method)
          provider_id)
    either answer (λ _. when wiring.has_allocation (run_allocation tx)) (λ e. pure tt)

  -- What follows the update to COMPLETED; no failure of these steps is returned.
  unfoldable pub after_completed : Wiring → String → ℕ → PaymentTransaction → Action (Unit {0})
  unfolding settle_installments notify_participant
  after_completed wiring provider_id now tx = do
    when (is_nonempty tx.installment_ids) (settle_installments wiring provider_id now tx)
    when wiring.has_subledger (ignore (append_payment_confirmation env tx))
    when (wiring.has_notifications && is_set tx.user_id) (ignore (notify_participant tx))

  unfoldable pub complete : Wiring → String → PaymentTransaction → Action (Unit {0})
  unfolding after_completed
  complete wiring provider_id tx = do
    now ← time_now env
    context "handle payment callback: update transaction to COMPLETED"
        (update env (mark_completed now tx))
    after_completed wiring provider_id now (mark_completed now tx)

  unfoldable pub execute_approved : Wiring → PaymentCallbackPayload → Action (Unit {0})
  unfolding complete
  execute_approved wiring p = do
    tx ←
        context "handle payment callback: find transaction (approved)"
          (find_by_provider_transaction_id env p.provider_transaction_id)
    if is_terminal tx then pure tt else complete wiring p.provider_transaction_id tx

  unfoldable pub fail_transaction : String → PaymentTransaction → Action (Unit {0})
  fail_transaction reason tx = do
    now ← time_now env
    context "handle payment callback: update transaction to FAILED"
        (update env (mark_failed reason now tx))

  unfoldable pub execute_failed : PaymentCallbackPayload → Action (Unit {0})
  unfolding fail_transaction
  execute_failed p = do
    tx ←
        context "handle payment callback: find transaction (failed)"
          (find_by_provider_transaction_id env p.provider_transaction_id)
    if is_terminal tx then pure tt else fail_transaction p.new_status tx

  unfoldable pub cancel_transaction : String → PaymentTransaction → Action (Unit {0})
  cancel_transaction reason tx = do
    now ← time_now env
    context "handle payment callback: update transaction to CANCELLED"
        (update env (mark_cancelled reason now tx))

  unfoldable pub execute_cancelled : PaymentCallbackPayload → Action (Unit {0})
  unfolding cancel_transaction
  execute_cancelled p = do
    tx ←
        context "handle payment callback: find transaction (cancelled)"
          (find_by_provider_transaction_id env p.provider_transaction_id)
    if is_terminal tx then pure tt else cancel_transaction p.new_status tx
