-- ===== src/Payment/Access.antt =====
-- What a user may read and change of the payments: get_transaction.go, get_installment.go,
-- cancel_participant_installments.go and manage_saved_cards.go of internal/usecase/payment, with the
-- operations of internal/adapter/mongodb that they call.
pub mod Organizer
use backend_go_role_organiza.Prelude.{
  ℕ, String, ◌==◌, Bool, true, false, not, ◌&&◌, ◌||◌, List, [], ◌∷◌, find, any, ltb, select,
  sort_by, update_first, update_where, join, if◌then◌else◌,
}
use backend_go_role_organiza.ApiErr.{Error, plain, wrapped, internal, not_found, forbidden}
use backend_go_role_organiza.Payment.Domain.{
  PaymentTransaction, PaymentInstallment, SavedCreditCard, is_owner,
}
use backend_go_role_organiza.Payment.Transactions.{find_by_id}
use backend_go_role_organiza.Payment.Installments.{cancel_by_participant}
use backend_go_role_organiza.Event.Domain.{evento_is_owner}
use backend_go_role_organiza.Event.Eventos.{find_evento}
use backend_go_role_organiza.World.{
  World, Env, Action, pure, gets, modify, or_raise, context, ◌>>=◌, ◌>>◌, raise_if, time_now,
  driver,
}

abbrev pub is_card : String → SavedCreditCard → Bool
is_card id c = c.id == id

-- The default card comes first, then the older one.
abbrev pub card_before : SavedCreditCard → SavedCreditCard → Bool
card_before c d =
    if c.is_default
    then not d.is_default || ltb c.created_at d.created_at
    else not d.is_default && ltb c.created_at d.created_at

unfoldable pub with_default : Bool → ℕ → SavedCreditCard → SavedCreditCard
with_default b now c = record c { is_default = b; updated_at = now }

module _ (env : Env) where
  unfoldable pub find_installment : String → Action PaymentInstallment
  find_installment id = do
    driver env (λ reason. internal (join ("find installment by id: " ∷ reason ∷ [])))
    found ← gets (λ w. find (λ i. i.id == id) w.installments)
    or_raise found (not_found "payment_installment" id)

  unfoldable pub is_participant_of_event : String → String → Action Bool
  is_participant_of_event event_id user_id = do
    driver env (λ reason. wrapped "is participant of event" (plain reason))
    gets (λ w. any (λ p. p.event_id == event_id && p.user_id == user_id) w.participants)

  unfoldable pub get_payment_transaction : String → String → Action PaymentTransaction
  unfolding find_by_id is_owner
  get_payment_transaction id requester_id = do
    tx ← context "get payment transaction" (find_by_id env id)
    raise_if (not (is_owner tx requester_id))
        (forbidden "acesso negado: transação pertence a outro usuário")
    pure tx

  unfoldable pub get_installment : String → String → Action PaymentInstallment
  unfolding find_installment is_participant_of_event
  get_installment id requester_id = do
    i ← find_installment id
    takes_part ←
        context "get installment: check participant"
          (is_participant_of_event i.event_id requester_id)
    raise_if (not takes_part) (forbidden "acesso negado: você não é participante deste evento")
    pure i

  -- Only the organiser of the event cancels.
  unfoldable pub cancel_participant_installments : String → String → String → Action ℕ
  unfolding find_evento evento_is_owner cancel_by_participant
  cancel_participant_installments event_id participant_id requester_id = do
    e ← find_evento env event_id
    raise_if (not (evento_is_owner e requester_id))
        (forbidden "somente o organizador pode cancelar parcelas de participantes")
    context "cancel participant installments" (cancel_by_participant env event_id participant_id)

  unfoldable pub find_cards_of_user : String → Action (List SavedCreditCard)
  unfolding sort_by
  find_cards_of_user user_id = do
    driver env (λ reason. internal (join ("find credit cards by user: " ∷ reason ∷ [])))
    gets λ w. sort_by card_before (select (λ c. c.user_id == user_id && c.is_active) w.saved_cards)

  -- The default of the user's cards is cleared; the card is then found by its identifier alone.
  unfoldable pub set_default_of_cards : String → String → Action (Unit {0})
  unfolding with_default
  set_default_of_cards user_id card_id = do
    now ← time_now env
    driver env (λ reason. internal (join ("set default credit card (clear): " ∷ reason ∷ [])))
    modify λ w. record w {
      saved_cards = update_where (λ c. c.user_id == user_id) (with_default false now) w.saved_cards;
    }
    driver env (λ reason. internal (join ("set default credit card (set): " ∷ reason ∷ [])))
    found ← gets (λ w. any (is_card card_id) w.saved_cards)
    raise_if (not found) (not_found "saved_credit_card" card_id)
    modify λ w. record w {
      saved_cards = update_first (is_card card_id) (with_default true now) w.saved_cards;
    }

  unfoldable pub deactivate_card : String → Action (Unit {0})
  deactivate_card id = do
    now ← time_now env
    driver env (λ reason. internal (join ("soft-delete credit card: " ∷ reason ∷ [])))
    found ← gets (λ w. any (is_card id) w.saved_cards)
    raise_if (not found) (not_found "saved_credit_card" id)
    modify λ w. record w {
      saved_cards =
          update_first (is_card id) (λ c. record c { is_active = false; updated_at = now })
            w.saved_cards;
    }

  unfoldable pub list_saved_cards : String → Action (List SavedCreditCard)
  unfolding find_cards_of_user
  list_saved_cards user_id = context "listar cartões salvos" (find_cards_of_user user_id)

  unfoldable pub set_default_card : String → String → Action (Unit {0})
  unfolding set_default_of_cards
  set_default_card card_id user_id =
      context "definir cartão padrão" (set_default_of_cards user_id card_id)

  -- The user is not looked at.
  unfoldable pub delete_saved_card : String → String → Action (Unit {0})
  unfolding deactivate_card
  delete_saved_card card_id _ = context "remover cartão salvo" (deactivate_card card_id)
