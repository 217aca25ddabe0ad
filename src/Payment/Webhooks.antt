-- ===== src/Payment/Webhooks.antt =====
-- internal/adapter/mongodb/processed_webhook_event.go: the collection processed_webhook_events, with
-- its unique index on (provider, eventId).
pub mod Laws
use backend_go_role_organiza.Prelude.{
  String, ◌==◌, Bool, true, false, ◌&&◌, [], ◌∷◌, ◌++◌, any, join, if◌then◌else◌,
}
use backend_go_role_organiza.ApiErr.{internal, already_processed}
use backend_go_role_organiza.Payment.Domain.{ProcessedWebhookEvent}
use backend_go_role_organiza.World.{
  World, Env, Action, gets, ◌>>=◌, ◌>>◌, raise_if, driver, insert_unique,
}

abbrev pub is_event : String → String → ProcessedWebhookEvent → Bool
is_event provider event_id e = e.provider == provider && e.event_id == event_id

abbrev pub recorded : String → String → World → Bool
recorded provider event_id w = any (is_event provider event_id) w.webhook_events

module _ (env : Env) where
  unfoldable pub exists_by_provider_and_event_id : String → String → Action Bool
  exists_by_provider_and_event_id provider event_id = do
    driver env (λ reason. internal (join ("check processed webhook event: " ∷ reason ∷ [])))
    gets (recorded provider event_id)

  -- `SaveUnique`: the caller has set the identifier.
  unfoldable pub save_unique : ProcessedWebhookEvent → Action (Unit {0})
  save_unique e = do
    fresh ←
        insert_unique env
          (λ reason. internal (join ("save processed webhook event: " ∷ reason ∷ [])))
          (recorded e.provider e.event_id)
          (λ w. record w { webhook_events = w.webhook_events ++ e ∷ [] })
    raise_if (if fresh then false else true) already_processed
