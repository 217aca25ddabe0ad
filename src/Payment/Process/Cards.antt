-- ===== src/Payment/Process/Cards.antt =====
-- The saved cards of internal/usecase/payment/process_payment.go (steps 2b and 11), with `FindByID`
-- and `Save` of internal/adapter/mongodb/saved_credit_card.go.
use backend_go_role_organiza.Prelude.{
  String, ◌==◌, Bool, true, false, not, ◌&&◌, Option, none, some, [], ◌∷◌, ◌++◌, find, any, join,
  is_set, pos, if◌then◌else◌,
}
use backend_go_role_organiza.ApiErr.{bad_request, internal, not_found}
use backend_go_role_organiza.Payment.Domain.{
  PaymentMethod, SavedCreditCard, CreditCardInput, ProcessPaymentInput,
}
use backend_go_role_organiza.World.{
  Env, Action, pure, raise, raise_if, attempt, gets, or_raise, ignore, when, ◌>>=◌, ◌>>◌, either,
  time_now, new_uuid, driver, insert_unique,
}

abbrev pub is_credit_card : PaymentMethod → Bool
is_credit_card PaymentMethod.credit_card = true
is_credit_card _ = false

-- `&portin.CreditCardInput{}`
abbrev no_card : CreditCardInput
no_card = record {
  holder_name = "";
  number = "";
  expiry_month = "";
  expiry_year = "";
  cvv = "";
  installments = pos 0;
  token_ref = "";
}

unfoldable pub with_token : String → Option CreditCardInput → CreditCardInput
with_token token none = record no_card { token_ref = token }
with_token token (some c) = record c { token_ref = token }

module _ (env : Env) where
  unfoldable pub find_card : String → Action SavedCreditCard
  find_card id = do
    driver env (λ reason. internal (join ("find credit card by id: " ∷ reason ∷ [])))
    c ← gets (λ w. find (λ c. c.id == id) w.saved_cards)
    or_raise c (not_found "saved_credit_card" id)

  unfoldable pub use_card : ProcessPaymentInput → SavedCreditCard → Action (Option CreditCardInput)
  use_card input card =
      if card.is_active
      then pure (some (with_token card.token_ref input.credit_card))
      else raise (bad_request "cartão salvo está inativo")

  -- Step 2b: the card of the request, with the token of the saved card it names.
  unfoldable pub resolve_saved_card : ProcessPaymentInput → Action (Option CreditCardInput)
  unfolding find_card use_card
  resolve_saved_card input =
      if is_set input.saved_card_id && is_credit_card input.method
      then (do
        answer ← attempt (find_card input.saved_card_id)
        either answer (use_card input) (λ _.
            raise
              (bad_request (join ("cartão salvo não encontrado: " ∷ input.saved_card_id ∷ [])))))
      else pure input.credit_card

  unfoldable pub save_card : SavedCreditCard → Action (Unit {0})
  save_card card = do
    fresh ←
        insert_unique env (λ reason. internal (join ("save credit card: " ∷ reason ∷ [])))
          (λ w. any (λ c. c.id == card.id) w.saved_cards)
          (λ w. record w { saved_cards = w.saved_cards ++ card ∷ [] })
    raise_if (not fresh) (internal "save credit card: duplicate key")

  unfoldable pub new_card : String → CreditCardInput → String × String × String → Action (Unit {0})
  unfolding save_card
  new_card user card (token, last4, brand) = do
    id ← new_uuid env
    created ← time_now env
    updated ← time_now env
    ignore (
        save_card (record {
          id = id;
          user_id = user;
          last_four_digits = last4;
          brand = brand;
          holder_name = card.holder_name;
          expiration_date =
              if is_set card.expiry_month && is_set card.expiry_year
              then join (card.expiry_month ∷ "/" ∷ card.expiry_year ∷ [])
              else "";
          token_ref = token;
          is_default = false;
          is_active = true;
          created_at = created;
          updated_at = updated;
        }))

  -- Step 11.
  unfoldable pub persist_card :
      ProcessPaymentInput → Option CreditCardInput → String × String × String → Action (Unit {0})
  unfolding new_card
  persist_card input none tokens = pure tt
  persist_card input (some card) tokens =
      when (input.save_card && is_set tokens.0 && is_credit_card input.method)
        (new_card input.user_id card tokens)
