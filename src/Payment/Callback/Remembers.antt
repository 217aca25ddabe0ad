-- ===== src/Payment/Callback/Remembers.antt =====
-- What a callback keeps: the recorded webhook events, and the charges made at the provider.
use backend_go_role_organiza.Prelude.{
  ℕ, String, ◌≡◌, refl, ◌∙◌, true, [], ◌∷◌, ◌++◌, any-append, arith,
}
use backend_go_role_organiza.Payment.Domain.{
  PaymentTransaction, PaymentCallbackPayload, ProcessedWebhookEvent,
}
use backend_go_role_organiza.World.{World, Env, Action, modify}
use backend_go_role_organiza.World.Within.{IsFrame, Within, within_rules}
use backend_go_role_organiza.Payment.Transactions.{update, replace, find_by_provider_transaction_id}
use backend_go_role_organiza.Payment.Transactions.Settled.{
  SameRecords, Within-insert_unique, find_by_provider_transaction_id-quiet,
}
use backend_go_role_organiza.Payment.Webhooks.{
  recorded, is_event, save_unique, exists_by_provider_and_event_id,
}
use backend_go_role_organiza.Payment.Callback.Status.{
  CallbackAction, approved, failed, cancelled, noop,
}
use backend_go_role_organiza.Payment.Callback.Handlers.{
  Wiring, complete, after_completed, execute_approved, execute_failed, execute_cancelled,
  fail_transaction, cancel_transaction,
}
use backend_go_role_organiza.Payment.Callback.Quiet.{
  Within-after_save, after_completed-quiet, notify_temporal-quiet,
}
use backend_go_role_organiza.Payment.Callback.{
  notify_temporal, route, record_event, process, execute,
}

-- No recorded event is forgotten, and no charge is made.
pub record Remembers (w w' : World) : Type 0 where
  pub recalls : (p : String) (e : String) → recorded p e w ≡ true → recorded p e w' ≡ true
  pub no_charge : w'.charges ≡ w.charges

pub Remembers-frame : IsFrame Remembers
Remembers-frame = record {
  rel_refl = λ w. record { recalls = λ p e h. h; no_charge = refl };
  rel_trans = λ u v w h k. record {
    recalls = λ p e r. k.recalls p e (h.recalls p e r);
    no_charge = k.no_charge ∙ h.no_charge;
  };
  rel_tick = λ w. record { recalls = λ p e h. h; no_charge = refl };
}

Remembers-of-SameRecords : {A : Type 0} (m : Action A) → Within SameRecords m → Within Remembers m
Remembers-of-SameRecords m h = record {
  at = λ w. record {
    recalls = λ p e r. rw (h.at w).same_events r;
    no_charge = (h.at w).same_charges;
  };
}

Remembers-modify :
    (f : World → World)
    → ((w : World) → (f w).webhook_events ≡ w.webhook_events)
    → ((w : World) → (f w).charges ≡ w.charges)
    → Within Remembers (modify f)
unfolding modify
Remembers-modify f r c = record {
  at = λ w. record { recalls = λ p e h. rw (r w) h; no_charge = c w };
}

ruleset remember_rules = (within_rules, Remembers-frame, Remembers-modify, refl)

module _ (env : Env) where
  update-Remembers : (t : PaymentTransaction) → Within Remembers (update env t)
  unfolding update replace
  update-Remembers t = search remember_rules depth 9

  loads-Remembers : (id : String) → Within Remembers (find_by_provider_transaction_id env id)
  loads-Remembers id = Remembers-of-SameRecords _ (find_by_provider_transaction_id-quiet env id)

  execute_failed-Remembers : (p : PaymentCallbackPayload) → Within Remembers (execute_failed env p)
  unfolding execute_failed fail_transaction
  execute_failed-Remembers p = search (remember_rules, loads-Remembers, update-Remembers) depth 9

  execute_cancelled-Remembers :
      (p : PaymentCallbackPayload) → Within Remembers (execute_cancelled env p)
  unfolding execute_cancelled cancel_transaction
  execute_cancelled-Remembers p = search (remember_rules, loads-Remembers, update-Remembers) depth 9

  module _ (wiring : Wiring) where
    after_completed-Remembers :
        (id : String) (now : ℕ) (t : PaymentTransaction)
        → Within Remembers (after_completed env wiring id now t)
    after_completed-Remembers id now t =
        Remembers-of-SameRecords _ (after_completed-quiet env wiring id now t)

    execute_approved-Remembers :
        (p : PaymentCallbackPayload) → Within Remembers (execute_approved env wiring p)
    unfolding execute_approved complete
    execute_approved-Remembers p =
        search (remember_rules, loads-Remembers, update-Remembers, after_completed-Remembers) depth
          9

    notify_temporal-Remembers :
        (p : PaymentCallbackPayload) (a : CallbackAction)
        → Within Remembers (notify_temporal env wiring p a)
    notify_temporal-Remembers p a =
        Remembers-of-SameRecords _ (notify_temporal-quiet env wiring p a)

    pub route-Remembers :
        (p : PaymentCallbackPayload) (a : CallbackAction) → Within Remembers (route env wiring p a)
    unfolding route
    route-Remembers p approved =
        search (remember_rules, execute_approved-Remembers, notify_temporal-Remembers)
    route-Remembers p failed =
        search (remember_rules, execute_failed-Remembers, notify_temporal-Remembers)
    route-Remembers p cancelled =
        search (remember_rules, execute_cancelled-Remembers, notify_temporal-Remembers)
    route-Remembers p noop = search remember_rules

    Remembers-add :
        (x : ProcessedWebhookEvent)
        → Within Remembers (modify (λ w. record w { webhook_events = w.webhook_events ++ x ∷ [] }))
    unfolding modify
    Remembers-add x = record {
      at = λ w. record {
        recalls = λ p e h. ground (arith, any-append (is_event p e) w.webhook_events (x ∷ []));
        no_charge = refl;
      };
    }

    record_event-Remembers :
        (p : PaymentCallbackPayload) → Within Remembers (record_event env wiring p)
    unfolding record_event save_unique
    record_event-Remembers p =
        search
          (within_rules, Remembers-frame, Within-insert_unique, Within-after_save, Remembers-add)
          depth 9

    process-Remembers : (p : PaymentCallbackPayload) → Within Remembers (process env wiring p)
    unfolding process
    process-Remembers p = search (remember_rules, record_event-Remembers, route-Remembers)

    pub execute-Remembers : (p : PaymentCallbackPayload) → Within Remembers (execute env wiring p)
    unfolding execute exists_by_provider_and_event_id
    execute-Remembers p = search (remember_rules, process-Remembers) depth 9
