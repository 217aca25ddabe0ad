-- ===== src/Payment/Access/Organizer.antt =====
-- Who cancels the installments of a participant.
use backend_go_role_organiza.Prelude.{
  ℕ, String, ◌≡◌, ◌≢◌, refl, false, find, arith, Bool-cases, Option-cases, inl, inr,
}
use backend_go_role_organiza.Event.Domain.{evento_is_owner}
use backend_go_role_organiza.Event.Eventos.{is_evento, evento_from_doc, find_evento}
use backend_go_role_organiza.Social.Requests.{is_responsavel, organizes}
use backend_go_role_organiza.Payment.Access.{cancel_participant_installments}
use backend_go_role_organiza.World.{
  World, Env, ok, ◌>>=◌, either, raise, raise_if, driver, gets, or_raise, pure,
}

-- A cancellation of a participant's installments by anyone but the organiser of the event is refused
-- and leaves every installment as it is, whatever database calls fail.
pub only_organizer_cancels :
    (env : Env) (event_id participant_id requester_id : String) (w : World)
    → organizes event_id requester_id w ≡ false
    → ((n : ℕ)
        → (cancel_participant_installments env event_id participant_id requester_id w).0 ≢ ok n)
      × ((cancel_participant_installments env event_id participant_id requester_id w).1.installments
          ≡ w.installments)
unfolding cancel_participant_installments organizes is_responsavel find_evento evento_from_doc
    evento_is_owner ◌>>=◌ either raise raise_if driver gets or_raise pure
only_organizer_cancels env event_id participant_id requester_id w =
    elim (Bool-cases (env.fails w.calls)) [
      | inl down ↦ rw down (λ h. (λ n e. ground (arith, e), refl))
      | inr up ↦ rw up (elim (Option-cases (find (is_evento event_id) w.eventos)) [
        | inl missing ↦ rw missing (λ h. (λ n e. ground (arith, e), refl))
        | inr (doc, found) ↦ rw found (λ h. rw h (λ n e. ground (arith, e), refl))
      ])
    ]
