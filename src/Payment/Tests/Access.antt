-- ===== src/Payment/Tests/Access.antt =====
-- The theorem on the cancellation of installments at a concrete input.
use backend_go_role_organiza.Prelude.{ℕ, ◌≡◌, ◌≢◌, refl, [], ◌∷◌}
use backend_go_role_organiza.Event.Eventos.{new_evento_doc}
use backend_go_role_organiza.Event.UseCases.{empty_draft, published}
use backend_go_role_organiza.Social.Requests.{organizes}
use backend_go_role_organiza.Payment.Access.{cancel_participant_installments}
use backend_go_role_organiza.Payment.Access.Organizer.{only_organizer_cancels}
use backend_go_role_organiza.Payment.Tests.Data.{env, batch_world}
use backend_go_role_organiza.World.{World, ok}

-- An event that the user u2 organises, with three open installments of the user u1.
abbrev party_world : World
unfolding new_evento_doc
party_world = record batch_world {
  eventos = new_evento_doc "e1" 1 (published (empty_draft "u2" 1) 1) ∷ [];
}

only_organizer_cancels_example :
    ((n : ℕ) → (cancel_participant_installments env "e1" "u1" "u1" party_world).0 ≢ ok n)
    × ((cancel_participant_installments env "e1" "u1" "u1" party_world).1.installments
        ≡ party_world.installments)
unfolding organizes party_world new_evento_doc
only_organizer_cancels_example = only_organizer_cancels env "e1" "u1" "u1" party_world refl
