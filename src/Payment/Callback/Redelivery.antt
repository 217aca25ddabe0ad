-- ===== src/Payment/Callback/Redelivery.antt =====
-- A webhook event is delivered again: handle_payment_callback.go records the event before it acts.
use backend_go_role_organiza.Prelude.{
  suc, String, ◌≡◌, refl, Bool, true, false, arith, Bool-cases, inl, inr, List, [], ◌∷◌,
}
use backend_go_role_organiza.ApiErr.{is_already_processed}
use backend_go_role_organiza.Payment.Domain.{PaymentCallbackPayload}
use backend_go_role_organiza.World.{
  World, Env, Result, ok, err, tick, raise, either, ◌>>=◌, attempt, context, driver, raise_if, gets,
  when, pure, time_now, new_uuid, wrap,
}
use backend_go_role_organiza.World.Within.{Within-when}
use backend_go_role_organiza.Payment.Webhooks.{
  recorded, save_unique, exists_by_provider_and_event_id,
}
use backend_go_role_organiza.Payment.Webhooks.Laws.{is_recorded_answer, recorded_of_save_unique}
use backend_go_role_organiza.Payment.Callback.Status.{is_non_terminal_status, map_callback_status}
use backend_go_role_organiza.Payment.Callback.Handlers.{Wiring}
use backend_go_role_organiza.Payment.Callback.Remembers.{
  Remembers-frame, route-Remembers, execute-Remembers,
}
use backend_go_role_organiza.Payment.Callback.{
  after_save, new_event, route, record_event, process, execute,
}

module _ (env : Env) (wiring : Wiring) (p : PaymentCallbackPayload) where
  pub execute_of_recorded :
      (w : World)
      → recorded p.provider p.provider_event_id w ≡ true
      → (execute env wiring p w).1 ≡ tick w
  unfolding execute exists_by_provider_and_event_id ◌>>=◌ gets driver raise_if context wrap pure
  execute_of_recorded w h = elim (Bool-cases (env.fails w.calls)) [
    | inl down ↦ rw down refl
    | inr up ↦ rw up (rw h refl)
  ]

  answered_of_recorded :
      (w : World)
      → recorded p.provider p.provider_event_id w ≡ true
      → env.fails w.calls ≡ false
      → execute env wiring p w ≡ (ok tt, tick w)
  unfolding execute exists_by_provider_and_event_id ◌>>=◌ gets driver raise_if context wrap pure
  answered_of_recorded w h up = rw up (rw h refl)

  answered_of_pending :
      (w : World)
      → is_non_terminal_status p.new_status ≡ true
      → env.fails w.calls ≡ false
      → execute env wiring p w ≡ (ok tt, tick w)
  unfolding execute exists_by_provider_and_event_id ◌>>=◌ gets driver raise_if context wrap pure
  answered_of_pending w pending up = elim (Bool-cases (recorded p.provider p.provider_event_id w)) [
    | inl old ↦ rw up (rw old refl)
    | inr new ↦ rw up (rw new (rw pending refl))
  ]

  recorded_of_after_save :
      (r : Result (Unit {0})) (w : World) (b : Bool)
      → (is_recorded_answer r ≡ true → recorded p.provider p.provider_event_id w ≡ true)
      → (after_save env wiring r w).0 ≡ ok b
      → recorded p.provider p.provider_event_id (after_save env wiring r w).1 ≡ true
  unfolding after_save pure raise
  recorded_of_after_save (ok _) w b h e = h refl
  recorded_of_after_save (err x) w b h e = elim (Bool-cases (is_already_processed x)) [
    | inl old ↦ rw old (h old)
    | inr new ↦ absurd (ground (arith, rw new at e))
  ]

  recorded_of_record_event :
      (w : World) (b : Bool)
      → (record_event env wiring p w).0 ≡ ok b
      → recorded p.provider p.provider_event_id (record_event env wiring p w).1 ≡ true
  unfolding record_event ◌>>=◌ attempt new_uuid time_now
  recorded_of_record_event w b e =
      let x = new_event p (env.uuid w.calls) (env.now (suc w.calls)) in
      let (r, w') = save_unique env x (tick (tick w)) in
      recorded_of_after_save r w' b (recorded_of_save_unique env x (tick (tick w))) e

  recorded_of_when-route :
      (r : Result Bool) (w : World)
      → ((b : Bool) → r ≡ ok b → recorded p.provider p.provider_event_id w ≡ true)
      → let a =
          either r
            (λ fresh. when fresh (route env wiring p (map_callback_status p.new_status)))
            raise
            w in
        a.0 ≡ ok tt → recorded p.provider p.provider_event_id a.1 ≡ true
  unfolding either raise
  recorded_of_when-route (ok b) w h e =
      ((Within-when Remembers-frame b _ (route-Remembers env wiring p _)).at w).recalls _ _
        (h b refl)
  recorded_of_when-route (err x) w h e = absurd (ground (arith, e))

  recorded_of_process :
      (w : World)
      → (process env wiring p w).0 ≡ ok tt
      → recorded p.provider p.provider_event_id (process env wiring p w).1 ≡ true
  unfolding process ◌>>=◌
  recorded_of_process w e =
      let (r, w') = record_event env wiring p w in
      recorded_of_when-route r w' (recorded_of_record_event w) e

  execute_of_pending :
      (w : World) → is_non_terminal_status p.new_status ≡ true → (execute env wiring p w).1 ≡ tick w
  unfolding execute exists_by_provider_and_event_id ◌>>=◌ gets driver raise_if context wrap pure
  execute_of_pending w pending = elim (Bool-cases (env.fails w.calls)) [
    | inl down ↦ rw down refl
    | inr up ↦ elim (Bool-cases (recorded p.provider p.provider_event_id w)) [
      | inl old ↦ rw up (rw old refl)
      | inr new ↦ rw up (rw new (rw pending refl))
    ]
  ]

  pub execute_of_fresh :
      (w : World)
      → is_non_terminal_status p.new_status ≡ false
      → recorded p.provider p.provider_event_id w ≡ false
      → env.fails w.calls ≡ false
      → execute env wiring p w ≡ process env wiring p (tick w)
  unfolding execute exists_by_provider_and_event_id ◌>>=◌ gets driver raise_if context wrap pure
  execute_of_fresh w final new up = rw up (rw new (rw final refl))

  execute_of_down : (w : World) → env.fails w.calls ≡ true → (execute env wiring p w).0 ≡ ok tt → ⊥
  unfolding execute exists_by_provider_and_event_id ◌>>=◌ gets driver raise_if context wrap raise
  execute_of_down w down = rw down (λ e. ground (arith, e))

  recorded_of_execute :
      (w : World)
      → is_non_terminal_status p.new_status ≡ false
      → (execute env wiring p w).0 ≡ ok tt
      → recorded p.provider p.provider_event_id (execute env wiring p w).1 ≡ true
  recorded_of_execute w final e = elim (Bool-cases (env.fails w.calls)) [
    | inl down ↦ absurd (execute_of_down w down e)
    | inr up ↦ elim (Bool-cases (recorded p.provider p.provider_event_id w)) [
      | inl old ↦ ((execute-Remembers env wiring p).at w).recalls _ _ old
      | inr new ↦
          rw (execute_of_fresh w final new up)
            (recorded_of_process (tick w) (rw (← execute_of_fresh w final new up) e))
    ]
  ]

  recorded_of_saved_process :
      (w : World)
      → (record_event env wiring p w).0 ≡ ok true
      → recorded p.provider p.provider_event_id (process env wiring p w).1 ≡ true
  unfolding process ◌>>=◌ either when
  recorded_of_saved_process w saved = rw saved (
      ((route-Remembers env wiring p (map_callback_status p.new_status)).at
          (record_event env wiring p w).1).recalls
        _ _ (recorded_of_record_event w true saved))

  recorded_of_saved :
      (w : World)
      → is_non_terminal_status p.new_status ≡ false
      → env.fails w.calls ≡ false
      → (record_event env wiring p (tick w)).0 ≡ ok true
      → recorded p.provider p.provider_event_id (execute env wiring p w).1 ≡ true
  recorded_of_saved w final up saved =
      elim (Bool-cases (recorded p.provider p.provider_event_id w)) [
        | inl old ↦ ((execute-Remembers env wiring p).at w).recalls _ _ old
        | inr new ↦ rw (execute_of_fresh w final new up) (recorded_of_saved_process (tick w) saved)
      ]

-- Deliveries of events, one after the other, each with what the outside says during it.
abbrev pub deliver_all : Wiring → List (Env × PaymentCallbackPayload) → World → World
deliver_all wiring [] w = w
deliver_all wiring (d ∷ ds) w = deliver_all wiring ds (execute d.0 wiring d.1 w).1

recorded_of_deliver_all :
    (wiring : Wiring) (provider event_id : String) (ds : List (Env × PaymentCallbackPayload))
    (w : World)
    → recorded provider event_id w ≡ true
    → recorded provider event_id (deliver_all wiring ds w) ≡ true
recorded_of_deliver_all wiring provider event_id [] w h = h
recorded_of_deliver_all wiring provider event_id (d ∷ ds) w h =
    recorded_of_deliver_all wiring provider event_id ds (execute d.0 wiring d.1 w).1
      (((execute-Remembers d.0 wiring d.1).at w).recalls provider event_id h)

-- Once a delivery of a webhook event has returned without an error, a later delivery of the same event,
-- whatever other events are delivered in between and whatever calls fail then, leaves the whole world
-- alone, the count of calls aside.
pub redelivery_changes_nothing :
    (env later : Env) (wiring : Wiring) (p : PaymentCallbackPayload)
    (between : List (Env × PaymentCallbackPayload)) (w : World)
    → (execute env wiring p w).0 ≡ ok tt
    → let w' = deliver_all wiring between (execute env wiring p w).1 in
      (execute later wiring p w').1 ≡ tick w'
redelivery_changes_nothing env later wiring p between w e =
    let w' = deliver_all wiring between (execute env wiring p w).1 in
    elim (Bool-cases (is_non_terminal_status p.new_status)) [
      | inl pending ↦ execute_of_pending later wiring p w' pending
      | inr final ↦ execute_of_recorded later wiring p w' (
          recorded_of_deliver_all wiring p.provider p.provider_event_id between
            (execute env wiring p w).1 (recorded_of_execute env wiring p w final e))
    ]

-- Where a delivery has recorded its event, the event stays recorded whatever its action returned, an
-- error included: the next delivery, with the database up, returns no error and changes nothing but
-- the count of calls. A delivery whose action failed is not made good by a retry.
pub no_retry_after_record :
    (env : Env) (wiring : Wiring) (p : PaymentCallbackPayload) (w : World)
    → env.fails w.calls ≡ false
    → (record_event env wiring p (tick w)).0 ≡ ok true
    → let w' = (execute env wiring p w).1 in
      env.fails w'.calls ≡ false → execute env wiring p w' ≡ (ok tt, tick w')
no_retry_after_record env wiring p w up saved up' =
    elim (Bool-cases (is_non_terminal_status p.new_status)) [
      | inl pending ↦ answered_of_pending env wiring p (execute env wiring p w).1 pending up'
      | inr final ↦
          answered_of_recorded env wiring p (execute env wiring p w).1
            (recorded_of_saved env wiring p w final up saved) up'
    ]
