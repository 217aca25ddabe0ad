-- ===== src/Payment/Callback/Outcome.antt =====
-- What the first delivery of a webhook event makes of its transaction.
use backend_go_role_organiza.Prelude.{
  ℕ, suc, String, ◌≡◌, false, some, [], ◌∷◌, ◌++◌, List, upper_in, if◌then◌else◌,
}
use backend_go_role_organiza.Payment.Domain.{
  PaymentTransaction, PaymentCallbackPayload, TransactionStatus,
}
use backend_go_role_organiza.World.{World, Env, tick}
use backend_go_role_organiza.World.Within.{Within}
use backend_go_role_organiza.Payment.Transactions.{lookup, update, replace_doc}
use backend_go_role_organiza.Payment.Transactions
use backend_go_role_organiza.Payment.Callback.Status.{
  CallbackAction, approved, failed, cancelled, noop,
}
use backend_go_role_organiza.Payment.Callback.Handlers.{Wiring}
use backend_go_role_organiza.Payment.Callback.{new_event}

-- What each status of the provider makes of a payment, as a table that stands apart from the code.
abbrev outcomes : List (List String × CallbackAction)
outcomes =
    ("APPROVED" ∷ "RECEIVED" ∷ "CONFIRMED" ∷ "COMPLETED" ∷ [], approved)
    ∷ (
      "REJECTED" ∷ "FAILED" ∷ "OVERDUE" ∷ "CHARGEBACK_REQUESTED" ∷ "CHARGEBACK_DISPUTE"
          ∷ "AWAITING_CHARGEBACK_REVERSAL" ∷ "DUNNING_RECEIVED" ∷ "DUNNING_REQUESTED" ∷ [],
      failed,
    )
    ∷ ("CANCELLED" ∷ "REFUNDED" ∷ [], cancelled)
    ∷ []

abbrev outcome_in : List (List String × CallbackAction) → String → CallbackAction
outcome_in [] s = noop
outcome_in (row ∷ rows) s = if upper_in s row.0 then row.1 else outcome_in rows s

abbrev pub outcome_of : String → CallbackAction
outcome_of s = outcome_in outcomes s

-- The transaction after an action that began at `at` and was written at `written`.
unfoldable pub decided : CallbackAction → String → ℕ → ℕ → PaymentTransaction → PaymentTransaction
decided approved reason at written t = record t {
  status = TransactionStatus.completed;
  completed_at = some at;
  updated_at = written;
}
decided failed reason at written t = record t {
  status = TransactionStatus.failed;
  failure_reason = reason;
  updated_at = written;
}
decided cancelled reason at written t = record t {
  status = TransactionStatus.cancelled;
  failure_reason = reason;
  updated_at = written;
}
decided noop reason at written t = t

module _ (env : Env) (up : (n : ℕ) → env.fails n ≡ false) (wiring : Wiring) where
  module _ (p : PaymentCallbackPayload) (t : PaymentTransaction) (w : World) where
    Decides : CallbackAction → World → Type 0
    Decides a w' =
        lookup t.id w'.transactions
        ≡ some (decided a p.new_status (env.now (suc w.calls)) (env.now (suc (suc w.calls))) t)

  -- The world in which the event has been recorded.
  event_recorded : PaymentCallbackPayload → World → World
  event_recorded p w = record (tick (tick (tick w))) {
    webhook_events =
        w.webhook_events ++ new_event p (env.uuid w.calls) (env.now (suc w.calls)) ∷ [];
  }
