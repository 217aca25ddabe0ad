-- ===== src/Payment/Callback/Status.antt =====
-- The classification of provider statuses in handle_payment_callback.go.
use backend_go_role_organiza.Prelude.{String, Bool, [], ◌∷◌, upper_in, if◌then◌else◌}

pub data CallbackAction : Type 0 where
  approved failed cancelled noop : CallbackAction

unfoldable pub map_callback_status : String → CallbackAction
map_callback_status s =
    if upper_in s ("APPROVED" ∷ "RECEIVED" ∷ "CONFIRMED" ∷ "COMPLETED" ∷ [])
    then approved
    else if upper_in s (
        "REJECTED" ∷ "FAILED" ∷ "OVERDUE" ∷ "CHARGEBACK_REQUESTED" ∷ "CHARGEBACK_DISPUTE"
        ∷ "AWAITING_CHARGEBACK_REVERSAL" ∷ "DUNNING_RECEIVED" ∷ "DUNNING_REQUESTED" ∷ [])
    then failed
    else if upper_in s ("CANCELLED" ∷ "REFUNDED" ∷ [])
    then cancelled
    else noop

unfoldable pub is_non_terminal_status : String → Bool
is_non_terminal_status s = upper_in s (
    "PENDING" ∷ "AWAITING_RISK_ANALYSIS" ∷ "AWAITING_PAYMENT" ∷ "IN_ANALYSIS" ∷ "PROCESSING" ∷ ""
    ∷ [])

-- The callback type of an action, in capitals and in small letters.
unfoldable pub action_text : CallbackAction → String × String
action_text approved = ("APPROVED", "approved")
action_text failed = ("FAILED", "failed")
action_text cancelled = ("CANCELLED", "cancelled")
action_text noop = ("noop", "noop")
