-- ===== src/Payment/Tests/Webhooks.antt =====
-- The theorems on webhook events and their workflow at concrete inputs.
use backend_go_role_organiza.Prelude.{List, [], ◌∷◌, upper_in, join, ◌≡◌, refl, true, some}
use backend_go_role_organiza.World.{Env, ok, err, tick}
use backend_go_role_organiza.Payment.Transactions.{lookup, save}
use backend_go_role_organiza.Payment.Transactions.Laws.{IsUnique}
use backend_go_role_organiza.Payment.Callback.Frozen.{execute_keeps_final}
use backend_go_role_organiza.Payment.Callback.Redelivery.{
  deliver_all, redelivery_changes_nothing, no_retry_after_record,
}
use backend_go_role_organiza.World.{
  ◌>>=◌, pure, raise, gets, attempt, wrap, context, or_raise, either, modify, raise_if, ignore,
  when, time_now, new_uuid, driver, insert_unique,
}
use backend_go_role_organiza.Payment.Webhooks.{exists_by_provider_and_event_id, save_unique}
use backend_go_role_organiza.Payment.Callback.Status.{
  is_non_terminal_status, map_callback_status, action_text,
}
use backend_go_role_organiza.Payment.Callback.Handlers.{
  execute_approved, complete, after_completed, settle_installments, run_allocation,
  notify_participant,
}
use backend_go_role_organiza.Payment.Domain.{PaymentCallbackPayload, mark_completed, method_text}
use backend_go_role_organiza.Payment.Subledger.{
  append_payment_confirmation, track_snapshot, insert_entry, confirmation_entry,
}
use backend_go_role_organiza.Payment.Callback
use backend_go_role_organiza.ApiErr.{wrapped, internal}
use backend_go_role_organiza.Payment.Workflows.{
  payment_confirmation_workflow, PaymentConfirmationInput,
}
use backend_go_role_organiza.Payment.Workflows.Confirmation.{confirmation_changes_nothing}
use backend_go_role_organiza.Payment.Transactions
use backend_go_role_organiza.Payment.Tests.Data.{
  world-IsUnique, flaky, env, settled, world, wiring, event,
}

-- A chargeback arrives for a completed transaction.
execute_keeps_final_example :
    let w' = (Callback.execute env wiring (event "pay_1" "CHARGEBACK_REQUESTED") world).1 in
    IsUnique w'.transactions × (lookup "t1" w'.transactions ≡ some settled)
execute_keeps_final_example =
    execute_keeps_final env wiring (event "pay_1" "CHARGEBACK_REQUESTED") world "t1" settled
      world-IsUnique refl refl

received_is_ok : (Callback.execute env wiring (event "pay_2" "RECEIVED") world).0 ≡ ok tt
unfolding Callback.execute Callback.process Callback.record_event Callback.after_save Callback.route
    Callback.notify_temporal Callback.signal_expiration_workflow
    Callback.start_confirmation_workflow upper_in join ◌>>=◌ pure raise gets attempt wrap context
    or_raise either modify raise_if ignore when time_now new_uuid driver insert_unique
    exists_by_provider_and_event_id save_unique is_non_terminal_status map_callback_status
    action_text execute_approved complete after_completed settle_installments run_allocation
    notify_participant mark_completed method_text append_payment_confirmation track_snapshot
    insert_entry confirmation_entry Transactions.find_by_provider_transaction_id Transactions.call
    Transactions.found_or_ref Transactions.update Transactions.replace
received_is_ok = refl

-- A refund of another transaction is delivered in between.
redelivery_changes_nothing_example :
    let between : List (Env × PaymentCallbackPayload) = (env, event "pay_1" "REFUNDED") ∷ [] in
    let w' =
      deliver_all wiring between (Callback.execute env wiring (event "pay_2" "RECEIVED") world).1 in
    (Callback.execute flaky wiring (event "pay_2" "RECEIVED") w').1 ≡ tick w'
redelivery_changes_nothing_example =
    redelivery_changes_nothing env flaky wiring (event "pay_2" "RECEIVED")
      ((env, event "pay_1" "REFUNDED") ∷ []) world received_is_ok

update_fails :
    (Callback.execute flaky wiring (event "pay_2" "RECEIVED") world).0
    ≡ err (
        wrapped "handle payment callback: update transaction to COMPLETED"
          (internal "update payment transaction: timeout"))
unfolding Callback.execute Callback.process Callback.record_event Callback.after_save Callback.route
    Callback.notify_temporal Callback.signal_expiration_workflow
    Callback.start_confirmation_workflow upper_in join ◌>>=◌ pure raise gets attempt wrap context
    or_raise either modify raise_if ignore when time_now new_uuid driver insert_unique
    exists_by_provider_and_event_id save_unique is_non_terminal_status map_callback_status
    action_text execute_approved complete after_completed settle_installments run_allocation
    notify_participant mark_completed method_text append_payment_confirmation track_snapshot
    insert_entry confirmation_entry Transactions.find_by_provider_transaction_id Transactions.call
    Transactions.found_or_ref Transactions.update Transactions.replace internal
update_fails = refl

event_is_saved :
    (Callback.record_event flaky wiring (event "pay_2" "RECEIVED") (tick world)).0 ≡ ok true
unfolding Callback.execute Callback.process Callback.record_event Callback.after_save Callback.route
    Callback.notify_temporal Callback.signal_expiration_workflow
    Callback.start_confirmation_workflow upper_in join ◌>>=◌ pure raise gets attempt wrap context
    or_raise either modify raise_if ignore when time_now new_uuid driver insert_unique
    exists_by_provider_and_event_id save_unique is_non_terminal_status map_callback_status
    action_text execute_approved complete after_completed settle_installments run_allocation
    notify_participant mark_completed method_text append_payment_confirmation track_snapshot
    insert_entry confirmation_entry Transactions.find_by_provider_transaction_id Transactions.call
    Transactions.found_or_ref Transactions.update Transactions.replace
event_is_saved = refl

no_retry_after_record_example :
    let w' = (Callback.execute flaky wiring (event "pay_2" "RECEIVED") world).1 in
    Callback.execute flaky wiring (event "pay_2" "RECEIVED") w' ≡ (ok tt, tick w')
unfolding Callback.execute Callback.process Callback.record_event Callback.after_save Callback.route
    Callback.notify_temporal Callback.signal_expiration_workflow
    Callback.start_confirmation_workflow upper_in join ◌>>=◌ pure raise gets attempt wrap context
    or_raise either modify raise_if ignore when time_now new_uuid driver insert_unique
    exists_by_provider_and_event_id save_unique is_non_terminal_status map_callback_status
    action_text execute_approved complete after_completed settle_installments run_allocation
    notify_participant mark_completed method_text append_payment_confirmation track_snapshot
    insert_entry confirmation_entry Transactions.find_by_provider_transaction_id Transactions.call
    Transactions.found_or_ref Transactions.update Transactions.replace
no_retry_after_record_example =
    no_retry_after_record flaky wiring (event "pay_2" "RECEIVED") world refl event_is_saved refl

abbrev confirmation : PaymentConfirmationInput
confirmation = record {
  provider_transaction_id = "pay_2";
  provider_name = "ASAAS";
  callback_type = "APPROVED";
  failure_reason = "RECEIVED";
  provider_event_id = "evt_1";
  event_type = "PAYMENT_RECEIVED";
}

confirmation_changes_nothing_example :
    let w = (Callback.execute flaky wiring (event "pay_2" "RECEIVED") world).1 in
    let w' = (payment_confirmation_workflow env wiring confirmation w).1 in
    record w' { calls = 0 } ≡ record w { calls = 0 }
unfolding Callback.execute Callback.process Callback.record_event Callback.after_save Callback.route
    Callback.notify_temporal Callback.signal_expiration_workflow
    Callback.start_confirmation_workflow upper_in join ◌>>=◌ pure raise gets attempt wrap context
    or_raise either modify raise_if ignore when time_now new_uuid driver insert_unique
    exists_by_provider_and_event_id save_unique is_non_terminal_status map_callback_status
    action_text execute_approved complete after_completed settle_installments run_allocation
    notify_participant mark_completed method_text append_payment_confirmation track_snapshot
    insert_entry confirmation_entry Transactions.find_by_provider_transaction_id Transactions.call
    Transactions.found_or_ref Transactions.update Transactions.replace
confirmation_changes_nothing_example =
    confirmation_changes_nothing env wiring confirmation
      (Callback.execute flaky wiring (event "pay_2" "RECEIVED") world).1 refl
