-- ===== src/Payment/Callback/Frozen.antt =====
-- A webhook event never changes a transaction that has reached a final status.
use backend_go_role_organiza.Prelude.{String, ◌≡◌, refl, true, false, some}
use backend_go_role_organiza.Payment.Domain.{
  PaymentTransaction, PaymentCallbackPayload, mark_completed, mark_failed, mark_cancelled,
  is_terminal,
}
use backend_go_role_organiza.World.{World, Env}
use backend_go_role_organiza.World.Within.{
  Within, within_rules, Within-bind, Within-pure, Within-if, Within-when,
}
use backend_go_role_organiza.Payment.Transactions.{lookup}
use backend_go_role_organiza.Payment.Transactions.Laws.{IsUnique}
use backend_go_role_organiza.Payment.Transactions.Settled.{
  Settles, Settles-frame, Settles-of-SameRecords, quiet_rules, Within-insert_unique, Settles-modify,
  Loads-context, Under, Under-Within, Under-if, Under-context, Under-bind, Under-bind_write,
  Under-update, Within-load, find_by_provider_transaction_id-Loads,
}
use backend_go_role_organiza.Payment.Webhooks.{save_unique, exists_by_provider_and_event_id}
use backend_go_role_organiza.Payment.Callback.Status.{
  CallbackAction, approved, failed, cancelled, noop,
}
use backend_go_role_organiza.Payment.Callback.Handlers.{
  Wiring, complete, execute_approved, execute_failed, execute_cancelled, fail_transaction,
  cancel_transaction,
}
use backend_go_role_organiza.Payment.Callback.{notify_temporal, route, record_event, execute}
use backend_go_role_organiza.Payment.Callback.Quiet.{
  Within-after_save, after_completed-quiet, notify_temporal-quiet,
}

module _ (env : Env) where
  module _ (wiring : Wiring) where
    complete-Under :
        (id : String) (t : PaymentTransaction)
        → is_terminal t ≡ false
        → Under t (complete env wiring id t)
    unfolding complete mark_completed
    complete-Under id t live = Under-bind t _ _ (search quiet_rules) λ now.
        Under-bind_write t _ _ (Under-context t _ _ (Under-update t env _ live refl))
          λ _. Settles-of-SameRecords _ (after_completed-quiet env wiring id now _)

    execute_approved-Settles :
        (p : PaymentCallbackPayload) → Within Settles (execute_approved env wiring p)
    unfolding execute_approved
    execute_approved-Settles p =
        Within-load _ _ (Loads-context _ _ (find_by_provider_transaction_id-Loads env _)) λ t.
          Under-if t _ _ _ (λ _. Under-Within t _ (Within-pure Settles-frame tt))
            (complete-Under p.provider_transaction_id t)

  fail_transaction-Under :
      (reason : String) (t : PaymentTransaction)
      → is_terminal t ≡ false
      → Under t (fail_transaction env reason t)
  unfolding fail_transaction mark_failed
  fail_transaction-Under reason t live =
      Under-bind t _ _ (search quiet_rules)
        λ now. Under-context t _ _ (Under-update t env _ live refl)

  execute_failed-Settles : (p : PaymentCallbackPayload) → Within Settles (execute_failed env p)
  unfolding execute_failed
  execute_failed-Settles p =
      Within-load _ _ (Loads-context _ _ (find_by_provider_transaction_id-Loads env _)) λ t.
        Under-if t _ _ _ (λ _. Under-Within t _ (Within-pure Settles-frame tt))
          (fail_transaction-Under p.new_status t)

  cancel_transaction-Under :
      (reason : String) (t : PaymentTransaction)
      → is_terminal t ≡ false
      → Under t (cancel_transaction env reason t)
  unfolding cancel_transaction mark_cancelled
  cancel_transaction-Under reason t live =
      Under-bind t _ _ (search quiet_rules)
        λ now. Under-context t _ _ (Under-update t env _ live refl)

  execute_cancelled-Settles :
      (p : PaymentCallbackPayload) → Within Settles (execute_cancelled env p)
  unfolding execute_cancelled
  execute_cancelled-Settles p =
      Within-load _ _ (Loads-context _ _ (find_by_provider_transaction_id-Loads env _)) λ t.
        Under-if t _ _ _ (λ _. Under-Within t _ (Within-pure Settles-frame tt))
          (cancel_transaction-Under p.new_status t)

  module _ (wiring : Wiring) where
    notify_temporal-Settles :
        (p : PaymentCallbackPayload) (a : CallbackAction)
        → Within Settles (notify_temporal env wiring p a)
    notify_temporal-Settles p a = Settles-of-SameRecords _ (notify_temporal-quiet env wiring p a)

    route-Settles :
        (p : PaymentCallbackPayload) (a : CallbackAction) → Within Settles (route env wiring p a)
    unfolding route
    route-Settles p approved =
        Within-bind Settles-frame _ _ (execute_approved-Settles wiring p)
          λ _. notify_temporal-Settles p approved
    route-Settles p failed =
        Within-bind Settles-frame _ _ (execute_failed-Settles p)
          λ _. notify_temporal-Settles p failed
    route-Settles p cancelled =
        Within-bind Settles-frame _ _ (execute_cancelled-Settles p)
          λ _. notify_temporal-Settles p cancelled
    route-Settles p noop = Within-pure Settles-frame tt

    record_event-Settles : (p : PaymentCallbackPayload) → Within Settles (record_event env wiring p)
    unfolding record_event save_unique
    record_event-Settles p =
        search
          (within_rules, Settles-frame, Within-insert_unique, Within-after_save, Settles-modify)
          depth 9

    execute-Settles : (p : PaymentCallbackPayload) → Within Settles (execute env wiring p)
    unfolding execute exists_by_provider_and_event_id
    execute-Settles p =
        Within-bind Settles-frame _ _ (search (within_rules, Settles-frame)) λ exists.
          Within-if Settles-frame _ _ _ (Within-pure Settles-frame tt) (
            Within-bind Settles-frame _ _ (record_event-Settles p)
              λ fresh. Within-when Settles-frame fresh _ (route-Settles p _))

-- Whatever the event, the failures of the database and the order in which they come, a stored
-- transaction whose status is COMPLETED, FAILED or CANCELLED is left exactly as it is, and
-- identifiers stay unique.
pub execute_keeps_final :
    (env : Env) (wiring : Wiring) (p : PaymentCallbackPayload) (w : World) (id : String)
    (t : PaymentTransaction)
    → IsUnique w.transactions
    → lookup id w.transactions ≡ some t
    → is_terminal t ≡ true
    → let w' = (execute env wiring p w).1 in
      IsUnique w'.transactions × (lookup id w'.transactions ≡ some t)
execute_keeps_final env wiring p w id t u stored final =
    let s = (execute-Settles env wiring p).at w in (s.unique u, s.frozen id t u stored final)
