-- ===== src/Payment/Callback/Quiet.antt =====
-- The steps of a callback that leave the transactions, the webhook events and the charges alone.
use backend_go_role_organiza.Prelude.{true, false, ℕ, String, List, [], ◌∷◌}
use backend_go_role_organiza.Payment.Domain.{
  PaymentTransaction, PaymentInstallment, PaymentCallbackPayload,
}
use backend_go_role_organiza.World.{World, Result, ok, err, Env}
use backend_go_role_organiza.World.Within.{
  IsFrame, Within-pure, Within-if, Within-raise, Within, Within-bind,
}
use backend_go_role_organiza.Payment.Transactions.Settled.{
  SameRecords, SameRecords-frame, quiet_rules, find_by_provider_transaction_id-quiet,
}
use backend_go_role_organiza.Payment.Allocation.Quiet.{
  mark_paid_batch-quiet, find_by_ids-quiet, allocate-quiet,
}
use backend_go_role_organiza.Payment.Callback.Status.{CallbackAction}
use backend_go_role_organiza.Payment.Callback.Handlers.{
  Wiring, allocate_all, run_allocation, notify_participant, settle_installments, after_completed,
}
use backend_go_role_organiza.Payment.Callback.{after_save, notify_temporal}
use backend_go_role_organiza.Payment.Subledger.Quiet.{append_payment_confirmation-quiet}

module _ {R : World → World → Type 0} (frame : IsFrame R) (env : Env) (wiring : Wiring) where
  pub Within-after_save : (r : Result (Unit {0})) → Within R (after_save env wiring r)
  unfolding after_save
  Within-after_save (ok _) = Within-pure frame true
  Within-after_save (err e) = Within-if frame _ _ _ (Within-pure frame false) (Within-raise frame _)

module _ (env : Env) where
  pub allocate_all-quiet : (is : List PaymentInstallment) → Within SameRecords (allocate_all env is)
  unfolding allocate_all
  allocate_all-quiet [] = search quiet_rules
  allocate_all-quiet (i ∷ is) =
      Within-bind SameRecords-frame _ _ (search (quiet_rules, allocate-quiet))
        λ _. allocate_all-quiet is

  pub run_allocation-quiet : (tx : PaymentTransaction) → Within SameRecords (run_allocation env tx)
  unfolding run_allocation
  run_allocation-quiet tx = search (quiet_rules, find_by_ids-quiet, allocate_all-quiet)

  pub notify_participant-quiet :
      (tx : PaymentTransaction) → Within SameRecords (notify_participant env tx)
  unfolding notify_participant
  notify_participant-quiet tx = search quiet_rules

  module _ (wiring : Wiring) where
    pub settle_installments-quiet :
        (id : String) (now : ℕ) (tx : PaymentTransaction)
        → Within SameRecords (settle_installments env wiring id now tx)
    unfolding settle_installments
    settle_installments-quiet id now tx =
        search (quiet_rules, mark_paid_batch-quiet, run_allocation-quiet)

    pub after_completed-quiet :
        (id : String) (now : ℕ) (tx : PaymentTransaction)
        → Within SameRecords (after_completed env wiring id now tx)
    unfolding after_completed
    after_completed-quiet id now tx = search (
      quiet_rules, settle_installments-quiet, append_payment_confirmation-quiet,
      notify_participant-quiet,
    )

    pub notify_temporal-quiet :
        (p : PaymentCallbackPayload) (a : CallbackAction)
        → Within SameRecords (notify_temporal env wiring p a)
    unfolding notify_temporal
    notify_temporal-quiet p a = search (quiet_rules, find_by_provider_transaction_id-quiet) depth 9
