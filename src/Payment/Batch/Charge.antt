-- ===== src/Payment/Batch/Charge.antt =====
-- Steps 9 to 16 of internal/usecase/payment/process_batch_payment.go: the transaction of the batch,
-- its charge and the provider's answer.
use backend_go_role_organiza.Prelude.{
  ℕ, String, ◌==◌, true, false, not, ◌&&◌, ◌||◌, Option, none, some, [], ◌∷◌, ◌++◌, length, is_set,
  join, ℤ, if◌then◌else◌,
}
use backend_go_role_organiza.Payment.Domain.{
  method_text, PaymentTransaction, CreditCardInput, ProcessPaymentInput, BatchPaymentResponse,
  ProviderPayment, CreatePaymentRequest, mark_completed,
}
use backend_go_role_organiza.World.{
  Env, Action, pure, context, ignore, when, modify, ◌>>=◌, ◌>>◌, time_now, new_uuid, request_or,
}
use backend_go_role_organiza.Payment.Transactions.{save, touch, replace}
use backend_go_role_organiza.Payment.Installments.{mark_paid_batch}
use backend_go_role_organiza.Payment.Fees.{resolve_snapshot, calculate_fees}
use backend_go_role_organiza.Payment.Subledger.{append_payment_commitment}
use backend_go_role_organiza.Payment.Process.Cards.{is_credit_card, save_card}
use backend_go_role_organiza.Payment.Process.Charge.{
  CardTokens, charge_request, with_charge, details, give_up,
}
use backend_go_role_organiza.Payment.Process.{Setup, new_transaction}

unfoldable pub batch_failed_response : ℤ → PaymentTransaction → BatchPaymentResponse
batch_failed_response total tx = record {
  success = false;
  processed_count = 0;
  total_amount_cents = total;
  transaction_id = tx.id;
  error = tx.failure_reason;
  message = "Falha ao processar lote de pagamento";
}

unfoldable pub batch_success_response : ℤ → ℕ → PaymentTransaction → BatchPaymentResponse
batch_success_response total count tx = record {
  success = true;
  processed_count = count;
  total_amount_cents = total;
  transaction_id = tx.id;
  error = "";
  message = "Lote processado com sucesso";
}

module _ (env : Env) (setup : Setup) where
  module _ (input : ProcessPaymentInput) (customer : String) where
    -- The card of step 14, charged at once.
    unfoldable pub settle_card :
        ℕ → ProviderPayment → PaymentTransaction → Action PaymentTransaction
    settle_card now p tx =
        if p.status == "CONFIRMED" || p.status == "RECEIVED"
        then (do
          ignore
              (mark_paid_batch env input.installment_ids tx.id now (method_text input.method) p.id)
          pure (mark_completed now tx))
        else pure tx

    -- Step 14.
    unfoldable pub batch_details :
        ℕ → ProviderPayment → PaymentTransaction → Action PaymentTransaction
    unfolding settle_card
    batch_details now p tx =
        if is_credit_card input.method then settle_card now p tx else details env input.method p tx

    unfoldable pub new_card_at : ℕ → CreditCardInput → CardTokens → Action (Unit {0})
    new_card_at now card (token, last4, brand) = do
      id ← new_uuid env
      ignore (
          save_card env (record {
            id = id;
            user_id = input.user_id;
            last_four_digits = last4;
            brand = brand;
            holder_name = card.holder_name;
            expiration_date =
                if is_set card.expiry_month && is_set card.expiry_year
                then join (card.expiry_month ∷ "/" ∷ card.expiry_year ∷ [])
                else "";
            token_ref = token;
            is_default = false;
            is_active = true;
            created_at = now;
            updated_at = now;
          }))

    -- Step 16.
    unfoldable pub batch_persist_card : ℕ → Option CreditCardInput → CardTokens → Action (Unit {0})
    unfolding new_card_at
    batch_persist_card now none tokens = pure tt
    batch_persist_card now (some card) tokens =
        when (input.save_card && is_set tokens.0 && is_credit_card input.method)
          (new_card_at now card tokens)

    -- From step 14 on.
    unfoldable pub batch_accepted :
        Option CreditCardInput
        → CardTokens
        → PaymentTransaction
        → ProviderPayment
        → Action BatchPaymentResponse
    unfolding batch_details batch_persist_card batch_success_response
    batch_accepted card tokens tx p = do
      now ← time_now env
      detailed ← batch_details now p (with_charge setup.provider_name input.method tokens p tx)
      touched ← touch env detailed
      context "process batch payment: update transaction" (replace env touched)
      batch_persist_card now card tokens
      pure (batch_success_response input.amount_cents (length input.installment_ids) touched)

    unfoldable pub batch_give_up : String → PaymentTransaction → Action BatchPaymentResponse
    unfolding batch_failed_response
    batch_give_up reason tx = do
      failed ← give_up env reason tx
      pure (batch_failed_response input.amount_cents failed)

    -- Step 13.
    unfoldable pub batch_submit :
        String
        → Option CreditCardInput
        → PaymentTransaction
        → CardTokens
        → Action BatchPaymentResponse
    unfolding batch_accepted batch_give_up
    batch_submit due card tx tokens =
        let req : CreatePaymentRequest = record (charge_request env customer due tokens input tx) {
          description = "Pagamento em Lote Rolê Organizado";
        } in
        request_or env (λ n. env.charge n req)
          (λ p. do
            modify (λ w. record w { charges = w.charges ++ req ∷ [] })
            batch_accepted card tokens tx p)
          (λ reason. batch_give_up (join ("provider error: " ∷ reason ∷ [])) tx)

    -- Step 12.
    unfoldable pub batch_tokenise :
        String → PaymentTransaction → Option CreditCardInput → Action BatchPaymentResponse
    unfolding batch_submit
    batch_tokenise due tx none = batch_submit due none tx ("", "", "")
    batch_tokenise due tx (some card) =
        if not (is_credit_card input.method)
        then batch_submit due (some card) tx ("", "", "")
        else if is_set card.token_ref
        then batch_submit due (some card) tx (card.token_ref, "", "")
        else if is_set card.number
        then request_or env (λ n. env.card_token n customer card)
            (λ t. batch_submit due (some card) tx (t.token, t.last_four, t.brand))
            (λ reason. batch_give_up (join ("card tokenisation failed: " ∷ reason ∷ [])) tx)
        else batch_submit due (some card) tx ("", "", "")

    -- Steps 9 to 12.
    unfoldable pub batch_record_and_charge : Option CreditCardInput → Action BatchPaymentResponse
    unfolding batch_tokenise
    batch_record_and_charge card = do
      snapshot ← context "process batch payment: fee policy" (resolve_snapshot env input.event_id)
      at ← time_now env
      id ← new_uuid env
      tx ←
          context "process batch payment: save transaction"
            (save env (new_transaction setup.provider_name input snapshot at id))
      ignore (
          append_payment_commitment env tx (calculate_fees env.floats input.amount_cents snapshot)
            snapshot)
      now ← time_now env
      batch_tokenise (env.next_day now) tx card
