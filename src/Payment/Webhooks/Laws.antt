-- ===== src/Payment/Webhooks/Laws.antt =====
-- What `SaveUnique` does, in one equation.
use backend_go_role_organiza.Prelude.{
  ◌≡◌, refl, Bool, true, false, List, [], ◌∷◌, ◌++◌, join, any, any-append, arith, eq_refl,
  Bool-cases, inl, inr, if◌then◌else◌,
}
use backend_go_role_organiza.ApiErr.{internal, already_processed, is_already_processed}
use backend_go_role_organiza.Payment.Domain.{ProcessedWebhookEvent}
use backend_go_role_organiza.World.{
  World, Env, Result, ok, err, modify, tick, raise, either, ◌>>=◌, insert_unique, driver, raise_if,
  gets, when, pure,
}
use backend_go_role_organiza.Payment.Webhooks.{is_event, recorded, save_unique}

pub save_unique_lem :
    (env : Env) (x : ProcessedWebhookEvent) (w : World)
    → save_unique env x w ≡ (
        if env.fails w.calls
        then (
          err (internal (join ("save processed webhook event: " ∷ env.reason w.calls ∷ []))),
          tick w,
        )
        else if recorded x.provider x.event_id w
        then (err already_processed, tick w)
        else (ok tt, record (tick w) { webhook_events = w.webhook_events ++ x ∷ [] }))
unfolding save_unique insert_unique ◌>>=◌ gets driver raise_if modify pure when either raise
save_unique_lem env x w = elim (Bool-cases (env.fails w.calls)) [
  | inl down ↦ rw down refl
  | inr up ↦ elim (Bool-cases (recorded x.provider x.event_id w)) [
    | inl old ↦ rw up (rw old refl)
    | inr new ↦ rw up (rw new refl)
  ]
]

-- The event is recorded: by this call, or by an earlier one.
abbrev pub is_recorded_answer : Result (Unit {0}) → Bool
is_recorded_answer (ok _) = true
is_recorded_answer (err e) = is_already_processed e

self_is_event :
    (x : ProcessedWebhookEvent) (xs : List ProcessedWebhookEvent)
    → any (is_event x.provider x.event_id) (xs ++ x ∷ []) ≡ true
self_is_event x xs = ground (
  arith,
  any-append (is_event x.provider x.event_id) xs (x ∷ []),
  eq_refl x.provider,
  eq_refl x.event_id,
)

pub recorded_of_save_unique :
    (env : Env) (x : ProcessedWebhookEvent) (w : World)
    → is_recorded_answer (save_unique env x w).0 ≡ true
    → recorded x.provider x.event_id (save_unique env x w).1 ≡ true
unfolding internal is_already_processed
recorded_of_save_unique env x w = rw (save_unique_lem env x w) (go _ _ refl)
  where
    go :
        (down old : Bool)
        → recorded x.provider x.event_id w ≡ old
        → let r : Result (Unit {0}) × World =
            (if down
              then (
                err (internal (join ("save processed webhook event: " ∷ env.reason w.calls ∷ []))),
                tick w,
              )
              else if old
              then (err already_processed, tick w)
              else (ok tt, record (tick w) { webhook_events = w.webhook_events ++ x ∷ [] })) in
          is_recorded_answer r.0 ≡ true → recorded x.provider x.event_id r.1 ≡ true
    go true old h e = absurd (ground (arith, e))
    go false true h e = h
    go false false h e = self_is_event x w.webhook_events
