-- ===== src/Payment/Process.antt =====
-- internal/usecase/payment/process_payment.go: a payment is validated, recorded, charged at the
-- provider and updated with the answer.
pub mod Customer
pub mod Cards
pub mod Charge
pub mod Charges
pub mod Once
pub mod Entry
use backend_go_role_organiza.Prelude.{
  ℕ, String, Bool, true, false, not, ◌&&◌, Option, none, some, [], ◌∷◌, ◌++◌, ◌/◌, join, is_set,
  is_some, pos, ℤ, sub_ℕ, ltb_ℤ, if◌then◌else◌,
}
use backend_go_role_organiza.ApiErr.{Error, plain, wrapped, bad_request, is_not_found}
use backend_go_role_organiza.Payment.Domain.{
  PaymentMethod, PaymentTransaction, PaymentMetadata, TransactionStatus, CreditCardInput,
  ProcessPaymentInput, FeePolicySnapshot, ProviderCardToken, WorkflowStart,
}
use backend_go_role_organiza.World.{
  World, Env, Action, Result, ok, err, pure, raise, raise_if, attempt, context, ignore, when,
  modify, ◌>>=◌, ◌>>◌, either, time_now, new_uuid, driver, request_or,
}
use backend_go_role_organiza.Payment.Transactions.{find_by_idempotency_key, save}
use backend_go_role_organiza.Payment.Fees.{resolve_snapshot, calculate_fees}
use backend_go_role_organiza.Payment.Subledger.{append_payment_commitment}
use backend_go_role_organiza.Payment.Process.Customer.{get_or_create_customer}
use backend_go_role_organiza.Payment.Process.Cards.{
  is_credit_card, resolve_saved_card, persist_card,
}
use backend_go_role_organiza.Payment.Process.Charge.{CardTokens, submit, give_up}

-- The configuration: the provider's name, and whether Temporal is there.
pub record Setup : Type 0 where
  pub provider_name : String
  pub has_starter : Bool

unfoldable pub needs_cpf : PaymentMethod → Bool
needs_cpf (PaymentMethod.other _) = false
needs_cpf _ = true

-- Step 2: the message of the 400 error, if the input is refused.
unfoldable pub validate : ProcessPaymentInput → Option String
unfolding needs_cpf
validate input =
    if ltb_ℤ input.amount_cents (pos 100)
    then some "valor mínimo é R$1,00 (100 centavos)"
    else if needs_cpf input.method && not (is_set input.cpf)
    then some "CPF é obrigatório para este método de pagamento"
    else none

abbrev pub no_metadata : PaymentMetadata
no_metadata = record {
  pix_qr_code_image = "";
  pix_qr_code_text = "";
  pix_key = "";
  pix_expires_at = none;
  boleto_code = "";
  boleto_digitable_line = "";
  boleto_pdf_url = "";
  boleto_due_date = none;
  card_last4 = "";
  card_brand = "";
  credit_card_installments = pos 0;
  installment_amount_cents = pos 0;
  tokenized_card = "";
  invoice_url = "";
  bank_slip_url = "";
  provider = "";
  billing_type = "";
}

-- The transaction of step 5.
unfoldable pub new_transaction :
    String → ProcessPaymentInput → FeePolicySnapshot → ℕ → String → PaymentTransaction
new_transaction provider_name input snapshot at id = record {
  id = id;
  user_id = input.user_id;
  event_id = input.event_id;
  installment_ids = input.installment_ids;
  amount_cents = input.amount_cents;
  currency = "BRL";
  payment_method = input.method;
  provider = provider_name;
  status = TransactionStatus.pending;
  idempotency_key = input.idempotency_key;
  provider_transaction_id = "";
  metadata = no_metadata;
  fee_policy_snapshot_version = snapshot.version;
  fee_policy_snapshot_captured_at = some at;
  created_at = at;
  updated_at = at;
  completed_at = none;
  expires_at = none;
  failure_reason = "";
}

is_pix_or_boleto : PaymentMethod → Bool
is_pix_or_boleto PaymentMethod.pix = true
is_pix_or_boleto PaymentMethod.boleto = true
is_pix_or_boleto _ = false

-- `t.UnixMilli()`: 1970 is 62135596800 seconds after the zero time.
unix_milli : ℕ → ℤ
unix_milli at = sub_ℕ (at / 1000000) 62135596800000

module _ (env : Env) (setup : Setup) where
  -- Step 1: the transaction recorded under the key.
  unfoldable pub after_lookup : Result PaymentTransaction → Action (Option PaymentTransaction)
  after_lookup (ok tx) = pure (some tx)
  after_lookup (err e) =
      if is_not_found e then pure none else raise (wrapped "process payment: idempotency check" e)

  unfoldable pub find_existing : String → Action (Option PaymentTransaction)
  unfolding after_lookup
  find_existing key =
      if is_set key
      then (do answer ← attempt (find_by_idempotency_key env key); after_lookup answer)
      else pure none

  unfoldable pub start_workflow : PaymentTransaction → ℕ → Action (Unit {0})
  unfolding unix_milli
  start_workflow tx at = do
    driver env plain
    modify (λ w. record w {
      workflow_starts =
          w.workflow_starts
          ++ record {
            workflow_id = join ("payment-expiration-real-" ∷ tx.id ∷ []);
            workflow_type = "PaymentExpirationWorkflow";
            reference = tx.id;
            callback_type = "";
            failure_reason = "";
            provider_event_id = "";
            expires_at_millis = unix_milli at;
          }
            ∷ [];
    })

  unfoldable pub start_if_expiring : PaymentTransaction → Option ℕ → Action (Unit {0})
  unfolding start_workflow
  start_if_expiring tx none = pure tt
  start_if_expiring tx (some at) = ignore (start_workflow tx at)

  -- Step 10.
  unfoldable pub start_expiration_workflow : PaymentTransaction → Action (Unit {0})
  unfolding start_if_expiring is_pix_or_boleto
  start_expiration_workflow tx =
      when (setup.has_starter && is_pix_or_boleto tx.payment_method)
        (start_if_expiring tx tx.expires_at)

  -- Steps 10 and 11.
  unfoldable pub finish :
      ProcessPaymentInput
      → Option CreditCardInput
      → CardTokens
      → PaymentTransaction
      → Action PaymentTransaction
  unfolding start_expiration_workflow
  finish input card tokens tx = do
    start_expiration_workflow tx
    persist_card env input card tokens
    pure tx

  module _ (input : ProcessPaymentInput) (customer : String) where
    -- The card's token, or no token at all.
    unfoldable pub tokenise :
        Option CreditCardInput
        → PaymentTransaction
        → (CardTokens → Action PaymentTransaction)
        → Action PaymentTransaction
    tokenise none tx pay = pay ("", "", "")
    tokenise (some card) tx pay =
        if not (is_credit_card input.method)
        then pay ("", "", "")
        else if is_set card.token_ref
        then pay (card.token_ref, "", "")
        else if is_set card.number
        then request_or env (λ n. env.card_token n customer card)
            (λ t. pay (t.token, t.last_four, t.brand))
            (λ reason. give_up env (join ("card tokenisation failed: " ∷ reason ∷ [])) tx)
        else pay ("", "", "")

    -- From step 7 on.
    unfoldable pub charge : Option CreditCardInput → PaymentTransaction → Action PaymentTransaction
    unfolding tokenise finish
    charge card tx = do
      now ← time_now env
      tokenise card tx (λ tokens.
          submit env setup.provider_name customer (env.next_day now) input tx tokens
            (finish input card tokens))

    -- From step 4 on.
    unfoldable pub record_and_charge : Option CreditCardInput → Action PaymentTransaction
    unfolding charge
    record_and_charge card = do
      snapshot ← context "process payment: fee policy" (resolve_snapshot env input.event_id)
      at ← time_now env
      id ← new_uuid env
      tx ←
          context "process payment: save transaction"
            (save env (new_transaction setup.provider_name input snapshot at id))
      ignore (
          append_payment_commitment env tx (calculate_fees env.floats input.amount_cents snapshot)
            snapshot)
      charge card tx

  -- What follows the validation.
  unfoldable pub pay : ProcessPaymentInput → Action PaymentTransaction
  unfolding record_and_charge
  pay input = do
    card ← resolve_saved_card env input
    customer ←
        context "process payment: customer" (get_or_create_customer env input.user_id input.cpf)
    record_and_charge input customer card

  -- What follows the idempotency check.
  unfoldable pub process_new : ProcessPaymentInput → Option String → Action PaymentTransaction
  unfolding pay
  process_new input (some message) = raise (bad_request message)
  process_new input none = pay input

  unfoldable pub after_existing :
      ProcessPaymentInput → Option PaymentTransaction → Action PaymentTransaction
  unfolding process_new
  after_existing input (some tx) = pure tx
  after_existing input none = process_new input (validate input)

  unfoldable pub execute : ProcessPaymentInput → Action PaymentTransaction
  unfolding find_existing after_existing
  execute input = do existing ← find_existing input.idempotency_key; after_existing input existing
