-- ===== src/Payment/Process/Charge.antt =====
-- Steps 7 to 9 of internal/usecase/payment/process_payment.go: the charge at the provider, what its
-- answer puts into the transaction, and the update.
use backend_go_role_organiza.Prelude.{
  ℕ, String, ◌==◌, ◌||◌, Option, none, some, [], ◌∷◌, ◌++◌, join, is_set, if◌then◌else◌,
}
use backend_go_role_organiza.Payment.Domain.{
  PaymentMethod, PaymentBillingType, PaymentTransaction, ProcessPaymentInput, CreatePaymentRequest,
  ProviderPayment, ProviderPixQrCode, ProviderIdentificationField, mark_completed, mark_failed,
}
use backend_go_role_organiza.World.{
  Env, Action, pure, context, ignore, modify, ◌>>=◌, ◌>>◌, time_now, request_or,
}
use backend_go_role_organiza.Payment.Transactions.{touch, replace}

-- A token, the last four digits and the brand.
abbrev pub CardTokens : Type 0
CardTokens = String × String × String

-- `methodToBillingType`
unfoldable pub method_to_billing_type : PaymentMethod → PaymentBillingType
method_to_billing_type PaymentMethod.pix = PaymentBillingType.pix
method_to_billing_type PaymentMethod.boleto = PaymentBillingType.boleto
method_to_billing_type PaymentMethod.credit_card = PaymentBillingType.credit_card
method_to_billing_type (PaymentMethod.other _) = PaymentBillingType.pix

-- `string(billingType)`
unfoldable pub billing_text : PaymentBillingType → String
billing_text PaymentBillingType.pix = "PIX"
billing_text PaymentBillingType.boleto = "BOLETO"
billing_text PaymentBillingType.credit_card = "CREDIT_CARD"

or_old : String → String → String
or_old new old = if is_set new then new else old

-- What the provider's answer puts into the transaction, before step 8.
unfoldable pub with_charge :
    String → PaymentMethod → CardTokens → ProviderPayment → PaymentTransaction → PaymentTransaction
unfolding or_old method_to_billing_type billing_text
with_charge provider_name method (token, last4, brand) p tx = record tx {
  provider_transaction_id = p.id;
  metadata = record tx.metadata {
    provider = provider_name;
    billing_type = billing_text (method_to_billing_type method);
    invoice_url = p.invoice_url;
    bank_slip_url = p.bank_slip_url;
    card_last4 = or_old last4 tx.metadata.card_last4;
    card_brand = or_old brand tx.metadata.card_brand;
    tokenized_card = or_old token tx.metadata.tokenized_card;
  };
}

unfoldable pub with_pix : ProviderPixQrCode → PaymentTransaction → PaymentTransaction
with_pix qr tx = record tx {
  metadata = record tx.metadata {
    pix_qr_code_image = qr.encoded_image;
    pix_qr_code_text = qr.payload;
    pix_expires_at = some qr.expiration_date;
  };
  expires_at = some qr.expiration_date;
}

-- The due date of a boleto, where it can be read.
with_due : Option ℕ → PaymentTransaction → PaymentTransaction
with_due none tx = tx
with_due (some due) tx = record tx {
  metadata = record tx.metadata { boleto_due_date = some due };
  expires_at = some due;
}

unfoldable pub with_boleto :
    Option ℕ → ProviderIdentificationField → PaymentTransaction → PaymentTransaction
unfolding with_due
with_boleto due field tx = with_due due (record tx {
  metadata = record tx.metadata {
    boleto_digitable_line = field.identification_field;
    boleto_code = field.nosso_numero;
  };
})

module _ (env : Env) where
  -- `if providerPayment.DueDate != "" { time.Parse(…) }`
  due_of : ProviderPayment → Option ℕ
  due_of p = if is_set p.due_date then env.parse_date p.due_date else none

  -- Step 8.
  unfoldable pub details :
      PaymentMethod → ProviderPayment → PaymentTransaction → Action PaymentTransaction
  unfolding due_of
  details PaymentMethod.pix p tx =
      request_or env (λ n. env.pix_code n p.id) (λ qr. pure (with_pix qr tx)) (λ _. pure tx)
  details PaymentMethod.boleto p tx =
      request_or env (λ n. env.boleto_field n p.id)
        (λ field. pure (with_boleto (due_of p) field tx)) (λ _. pure tx)
  details PaymentMethod.credit_card p tx =
      if p.status == "CONFIRMED" || p.status == "RECEIVED"
      then (do now ← time_now env; pure (mark_completed now tx))
      else pure tx
  details (PaymentMethod.other _) p tx = pure tx

  -- Steps 8 and 9; `finish` is what follows them.
  unfoldable pub after_charge :
      String
      → PaymentMethod
      → CardTokens
      → (PaymentTransaction → Action PaymentTransaction)
      → PaymentTransaction
      → ProviderPayment
      → Action PaymentTransaction
  unfolding details
  after_charge provider_name method tokens finish tx p = do
    detailed ← details method p (with_charge provider_name method tokens p tx)
    touched ← touch env detailed
    context "process payment: update transaction" (replace env touched)
    finish touched

  -- The failure of the provider is in the status of the transaction, and is not returned.
  unfoldable pub give_up : String → PaymentTransaction → Action PaymentTransaction
  give_up reason tx = do
    now ← time_now env
    touched ← touch env (mark_failed reason now tx)
    ignore (replace env touched)
    pure touched

  -- The request of step 7: the amount and the method are the input's.
  unfoldable pub charge_request :
      String → String → CardTokens → ProcessPaymentInput → PaymentTransaction → CreatePaymentRequest
  charge_request customer due tokens input tx = record {
    customer_id = customer;
    billing_type = method_to_billing_type input.method;
    value_cents = input.amount_cents;
    due_date = due;
    external_reference = tx.id;
    description = "Pagamento Rolê Organizado";
    credit_card_token = tokens.0;
  }

  -- `CreatePayment`, which the provider accepts or refuses.
  unfoldable pub create_payment :
      CreatePaymentRequest
      → (ProviderPayment → Action PaymentTransaction)
      → (String → Action PaymentTransaction)
      → Action PaymentTransaction
  create_payment req accepted refused =
      request_or env (λ n. env.charge n req)
        (λ p. do modify (λ w. record w { charges = w.charges ++ req ∷ [] }); accepted p) refused

  unfoldable pub submit :
      String
      → String
      → String
      → ProcessPaymentInput
      → PaymentTransaction
      → CardTokens
      → (PaymentTransaction → Action PaymentTransaction)
      → Action PaymentTransaction
  unfolding create_payment charge_request after_charge give_up
  submit provider_name customer due input tx tokens finish =
      create_payment (charge_request customer due tokens input tx)
        (after_charge provider_name input.method tokens finish tx)
        (λ reason. give_up (join ("provider error: " ∷ reason ∷ [])) tx)
