-- ===== src/Payment/Callback.antt =====
-- internal/usecase/payment/handle_payment_callback.go: a webhook event of the payment provider.
pub mod Status
pub mod Handlers
pub mod Quiet
pub mod Frozen
pub mod Remembers
pub mod Redelivery
pub mod Outcome
use backend_go_role_organiza.Prelude.{
  pos, ℕ, String, Bool, true, false, ◌||◌, Option, none, some, List, [], ◌∷◌, ◌++◌, join,
  if◌then◌else◌,
}
use backend_go_role_organiza.ApiErr.{Error, plain, wrapped, is_already_processed}
use backend_go_role_organiza.Payment.Domain.{
  PaymentTransaction, PaymentCallbackPayload, ProcessedWebhookEvent, Signal, WorkflowStart,
}
use backend_go_role_organiza.World.{
  World, Env, Action, Result, ok, err, pure, raise, attempt, context, ◌>>=◌, ◌>>◌, either, modify,
  when, ignore, time_now, new_uuid, driver,
}
use backend_go_role_organiza.Payment.Transactions.{find_by_provider_transaction_id}
use backend_go_role_organiza.Payment.Webhooks.{exists_by_provider_and_event_id, save_unique}
use backend_go_role_organiza.Payment.Callback.Status.{
  CallbackAction, approved, failed, cancelled, noop, map_callback_status, is_non_terminal_status,
  action_text,
}
use backend_go_role_organiza.Payment.Callback.Handlers.{
  Wiring, execute_approved, execute_failed, execute_cancelled,
}

abbrev pub new_event : PaymentCallbackPayload → String → ℕ → ProcessedWebhookEvent
new_event p id now = record {
  id = id;
  provider = p.provider;
  event_id = p.provider_event_id;
  provider_transaction_id = p.provider_transaction_id;
  event_type = p.event_type;
  processed_at = now;
}

module _ (env : Env) (wiring : Wiring) where
  unfoldable pub signal_expiration_workflow : PaymentCallbackPayload → Action (Unit {0})
  signal_expiration_workflow p = ignore (do
    tx ← find_by_provider_transaction_id env p.provider_transaction_id
    driver env plain
    modify (λ w. record w {
      signals =
          w.signals
          ++ record {
            workflow_id = join ("payment-expiration-real-" ∷ tx.id ∷ []);
            signal_name = "paymentCompleted";
            reason = p.new_status;
          }
            ∷ [];
    }))

  unfoldable pub start_confirmation_workflow :
      PaymentCallbackPayload → CallbackAction → Action (Unit {0})
  start_confirmation_workflow p a = ignore (do
    driver env plain
    modify (λ w. record w {
      workflow_starts =
          w.workflow_starts
          ++ record {
            workflow_id = join (
                "payment-confirmation-real-"
                ∷ p.provider_transaction_id
                ∷ "-"
                ∷ (action_text a).1
                ∷ []);
            workflow_type = "PaymentConfirmationWorkflow";
            reference = p.provider_transaction_id;
            callback_type = (action_text a).0;
            failure_reason = p.new_status;
            provider_event_id = p.provider_event_id;
            expires_at_millis = pos 0;
          }
            ∷ [];
    }))

  -- Step 5, after a successful action.
  unfoldable pub notify_temporal : PaymentCallbackPayload → CallbackAction → Action (Unit {0})
  unfolding signal_expiration_workflow start_confirmation_workflow
  notify_temporal p a = do
    when wiring.has_signaler (signal_expiration_workflow p)
    when wiring.has_starter (start_confirmation_workflow p a)

  -- Steps 4 and 5.
  unfoldable pub route : PaymentCallbackPayload → CallbackAction → Action (Unit {0})
  unfolding notify_temporal
  route p approved = do execute_approved env wiring p; notify_temporal p approved
  route p failed = do execute_failed env p; notify_temporal p failed
  route p cancelled = do execute_cancelled env p; notify_temporal p cancelled
  route p noop = pure tt

  -- Step 3: `true` if this call recorded the event, `false` if a concurrent one did.
  unfoldable pub after_save : Result (Unit {0}) → Action Bool
  after_save (ok _) = pure true
  after_save (err e) =
      if is_already_processed e
      then pure false
      else raise (wrapped "handle payment callback: save webhook event" e)

  unfoldable pub record_event : PaymentCallbackPayload → Action Bool
  unfolding after_save
  record_event p = do
    id ← new_uuid env
    now ← time_now env
    answer ← attempt (save_unique env (new_event p id now))
    after_save answer

  -- What follows the pre-check.
  unfoldable pub process : PaymentCallbackPayload → Action (Unit {0})
  unfolding record_event route
  process p = do fresh ← record_event p; when fresh (route p (map_callback_status p.new_status))

  unfoldable pub execute : PaymentCallbackPayload → Action (Unit {0})
  unfolding process
  execute p = do
    exists ←
        context "handle payment callback: idempotency check"
          (exists_by_provider_and_event_id env p.provider p.provider_event_id)
    if exists || is_non_terminal_status p.new_status then pure tt else process p
