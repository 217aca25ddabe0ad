-- ===== src/Payment/Workflows.antt =====
-- The payment workflows of Temporal: internal/adapter/temporal/workflow/payment_expiration.go and
-- payment_confirmation.go, with their activities in
-- internal/adapter/temporal/activity/payment_activities.go. Temporal itself is a parameter: which
-- side of a race comes first, and its documented retry loop, which repeats a failed activity until
-- the attempts are used up or the failure is one that must not be retried.
pub mod Outcomes
pub mod Confirmation
use backend_go_role_organiza.Prelude.{
  ℕ, suc, ◌*◌, String, ◌==◌, Bool, true, false, not, ◌&&◌, [], ◌∷◌, is_set, join, leb, upper_in,
  if◌then◌else◌,
}
use backend_go_role_organiza.ApiErr.{
  Error, api, wrapped, plain, already_processed, transaction_already_terminal,
}
use backend_go_role_organiza.Payment.Domain.{PaymentCallbackPayload}
use backend_go_role_organiza.World.{
  World, Env, Action, Result, ok, err, pure, raise, attempt, context, ◌>>=◌, either,
}
use backend_go_role_organiza.Payment.Callback.Handlers.{Wiring}
use backend_go_role_organiza.Payment.Expire
use backend_go_role_organiza.Payment.Callback

-- `isAlreadyTerminal` compares the text of an error: the text of an API error begins with a bracket,
-- and that of a wrapped one has a colon.
unfoldable pub is_already_terminal : Error → Bool
is_already_terminal (api _) = false
is_already_terminal (wrapped _ _) = false
is_already_terminal (plain s) = s == "transaction already terminal"
is_already_terminal already_processed = false
is_already_terminal transaction_already_terminal = true

-- How an activity ends, for Temporal: a failure is retryable unless it says otherwise.
pub data Outcome : Type 0 where
  done : Outcome
  retryable non_retryable : Error → Outcome

pub data WorkflowState : Type 0 where
  waiting expiring completed failed skipped paid : WorkflowState

-- Which of the timer and the `paymentCompleted` signal comes first.
pub data Race : Type 0 where
  timer_fires signal_arrives : Race

pub record PaymentConfirmationInput : Type 0 where
  pub provider_transaction_id : String
  pub provider_name : String
  pub callback_type : String
  pub failure_reason : String
  pub provider_event_id : String
  pub event_type : String

outcome_of : String → Result (Unit {0}) → Outcome
outcome_of s (ok _) = done
outcome_of s (err e) = retryable (wrapped s e)

-- The retry loop of Temporal: one attempt, and at most `n` more.
unfoldable pub with_retries : ℕ → Action Outcome → Action Outcome
with_retries ℕ.zero m = m
with_retries (suc n) m = do
  outcome ← m
  elim outcome [
    | done ↦ pure done
    | retryable e ↦ with_retries n m
    | non_retryable e ↦ pure (non_retryable e)
  ]

module _ (env : Env) where
  after_expire : String → Result (Unit {0}) → Outcome
  after_expire id (ok _) = done
  after_expire id (err e) =
      if is_already_terminal e
      then non_retryable e
      else retryable (wrapped (join ("expire transaction " ∷ id ∷ [])) e)

  -- The activity `ExpireTransaction`.
  unfoldable pub expire_transaction : String → Action Outcome
  unfolding after_expire
  expire_transaction id = do answer ← attempt (Expire.execute env id); pure (after_expire id answer)

  state_of : Outcome → WorkflowState
  state_of done = completed
  state_of (retryable e) = failed
  state_of (non_retryable e) = failed

  -- The race, and what follows it.
  run_race : Race → String → Action WorkflowState
  unfolding state_of expire_transaction
  run_race signal_arrives id = pure paid
  run_race timer_fires id = do
    outcome ← with_retries 2 (expire_transaction id)
    pure (state_of outcome)

  -- `PaymentExpirationWorkflow`, started at `now` in nanoseconds, with `ExpiresAtMillis`: the state its
  -- queries report at the end. It returns an error in the state `failed` and in no other.
  unfoldable pub payment_expiration_workflow : ℕ → Race → ℕ → String → Action WorkflowState
  unfolding run_race
  payment_expiration_workflow now race expires_at id =
      if leb (expires_at * 1000000) now then pure skipped else run_race race id

  module _ (wiring : Wiring) where
    unfoldable pub run_callback : PaymentConfirmationInput → String → Action Outcome
    unfolding outcome_of
    run_callback input status = do
      answer ← attempt (
          Callback.execute env wiring (record {
            provider = input.provider_name;
            provider_event_id = input.provider_event_id;
            provider_transaction_id = input.provider_transaction_id;
            event_type = input.event_type;
            new_status =
                if is_set input.failure_reason && not (status == "FAILED")
                then input.failure_reason
                else status;
          }))
      pure (
          outcome_of (join ("payment confirmation activity (" ∷ input.callback_type ∷ ")" ∷ []))
            answer)

    -- `PaymentConfirmationWorkflow`: each activity has five attempts.
    unfoldable pub payment_confirmation_workflow : PaymentConfirmationInput → Action Outcome
    unfolding run_callback
    payment_confirmation_workflow input =
        if upper_in input.callback_type ("APPROVED" ∷ [])
        then with_retries 4 (run_callback input "RECEIVED")
        else if upper_in input.callback_type ("FAILED" ∷ [])
        then with_retries 4 (run_callback input "FAILED")
        else if upper_in input.callback_type ("CANCELLED" ∷ [])
        then with_retries 4 (run_callback input "CANCELLED")
        else pure
            (non_retryable (plain (join ("unknown callback type: " ∷ input.callback_type ∷ []))))
