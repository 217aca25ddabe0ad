-- ===== src/Payment/Workflows/Confirmation.antt =====
-- PaymentConfirmationWorkflow runs after the webhook event has been recorded.
use backend_go_role_organiza.Prelude.{
  ℕ, suc, String, ◌≡◌, refl, ap, ◌∙◌, Bool, true, false, if◌then◌else◌,
}
use backend_go_role_organiza.World.{
  World, Env, Action, Result, ok, err, pure, raise, attempt, ◌>>=◌, either,
}
use backend_go_role_organiza.Payment.Webhooks.{recorded}
use backend_go_role_organiza.Payment.Callback.Handlers.{Wiring}
use backend_go_role_organiza.Payment.Callback.Redelivery.{execute_of_recorded}
use backend_go_role_organiza.Payment.Workflows.{
  Outcome, done, retryable, non_retryable, PaymentConfirmationInput, with_retries, run_callback,
  payment_confirmation_workflow,
}

abbrev stopped : World → World
stopped w = record w { calls = 0 }

module _ (provider event_id : String) where
  -- Where the event is recorded, `m` changes nothing but the count of calls.
  Idle : {A : Type 0} → Action A → Type 0
  Idle m = (w : World) → recorded provider event_id w ≡ true → stopped (m w).1 ≡ stopped w

  module _ {A B : Type 0} where
    either-Idle :
        (r : Result A) (f : A → Action B) → ((a : A) → Idle (f a)) → Idle (either r f raise)
    unfolding Idle either raise
    either-Idle (ok a) f h = h a
    either-Idle (err e) f h = λ w k. refl

    bind-Idle : (m : Action A) (f : A → Action B) → Idle m → ((a : A) → Idle (f a)) → Idle (m >>= f)
    unfolding Idle ◌>>=◌
    bind-Idle m f hm hf w h =
        let k : recorded provider event_id (m w).1 ≡ true =
          ap (recorded provider event_id) (hm w h) ∙ h in
        either-Idle (m w).0 f hf (m w).1 k ∙ hm w h

  pure-Idle : {A : Type 0} (a : A) → Idle (pure a)
  unfolding Idle pure
  pure-Idle a w h = refl

  again-Idle :
      (m : Action Outcome) (outcome : Outcome)
      → Idle m
      → Idle (elim outcome [
        | done ↦ pure done
        | retryable e ↦ m
        | non_retryable e ↦ pure (non_retryable e)
      ])
  again-Idle m done h = pure-Idle done
  again-Idle m (retryable e) h = h
  again-Idle m (non_retryable e) h = pure-Idle (non_retryable e)

  with_retries-Idle : (n : ℕ) (m : Action Outcome) → Idle m → Idle (with_retries n m)
  unfolding with_retries
  with_retries-Idle ℕ.zero m h = h
  with_retries-Idle (suc n) m h =
      bind-Idle m _ h λ o. again-Idle (with_retries n m) o (with_retries-Idle n m h)

  if-Idle : (b : Bool) (m n : Action Outcome) → Idle m → Idle n → Idle (if b then m else n)
  if-Idle true m n hm hn = hm
  if-Idle false m n hm hn = hn

module _ (env : Env) (wiring : Wiring) (input : PaymentConfirmationInput) where
  run_callback-Idle :
      (status : String)
      → Idle input.provider_name input.provider_event_id (run_callback env wiring input status)
  unfolding run_callback Idle ◌>>=◌ attempt either pure
  run_callback-Idle status w h = ap stopped (execute_of_recorded env wiring _ w h)

  workflow-Idle :
      Idle input.provider_name input.provider_event_id
        (payment_confirmation_workflow env wiring input)
  unfolding payment_confirmation_workflow
  workflow-Idle = if-Idle _ _ _ _ _ (with_retries-Idle _ _ 4 _ (run_callback-Idle "RECEIVED")) (
      if-Idle _ _ _ _ _ (with_retries-Idle _ _ 4 _ (run_callback-Idle "FAILED")) (
        if-Idle _ _ _ _ _ (with_retries-Idle _ _ 4 _ (run_callback-Idle "CANCELLED"))
          (pure-Idle _ _ _)))

-- Where the webhook event of its input is recorded already, PaymentConfirmationWorkflow changes
-- nothing but the count of calls, through all of its retries. The callback records the event before
-- it starts this workflow with it.
pub confirmation_changes_nothing :
    (env : Env) (wiring : Wiring) (input : PaymentConfirmationInput) (w : World)
    → recorded input.provider_name input.provider_event_id w ≡ true
    → let w' = (payment_confirmation_workflow env wiring input w).1 in
      record w' { calls = 0 } ≡ record w { calls = 0 }
unfolding Idle
confirmation_changes_nothing env wiring input w h = workflow-Idle env wiring input w h
