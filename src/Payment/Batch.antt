-- ===== src/Payment/Batch.antt =====
-- internal/usecase/payment/process_batch_payment.go: several installments are paid with one charge.
-- The steps that repeat those of process_payment.go word for word are that file's definitions, at
-- the input of the batch as a single payment.
pub mod Checks
pub mod Charge
pub mod Charges
pub mod Owned
use backend_go_role_organiza.Prelude.{
  ℕ, String, ◌==◌, Bool, true, false, not, ◌&&◌, ◌||◌, Option, none, some, List, [], ◌∷◌, ◌++◌, map,
  select, length, is_set, join, ℤ, pos, if◌then◌else◌,
}
use backend_go_role_organiza.ApiErr.{Error, plain, wrapped, bad_request, not_found, is_not_found}
use backend_go_role_organiza.Payment.Domain.{
  PaymentMethod, method_text, PaymentTransaction, PaymentInstallment, TransactionStatus, is_final,
  CreditCardInput, ProcessPaymentInput, ProcessBatchPaymentInput, BatchPaymentResponse,
  ProviderPayment, CreatePaymentRequest, mark_completed,
}
use backend_go_role_organiza.World.{
  World, Env, Action, Result, ok, err, pure, raise, raise_if, attempt, context, ignore, when, gets,
  modify, ◌>>=◌, ◌>>◌, time_now, new_uuid, driver, request_or,
}
use backend_go_role_organiza.Payment.Transactions.{find_by_idempotency_key, save, touch, replace}
use backend_go_role_organiza.Payment.Installments.{find_by_ids, mark_paid_batch}
use backend_go_role_organiza.Payment.Fees.{resolve_snapshot, calculate_fees}
use backend_go_role_organiza.Payment.Subledger.{append_payment_commitment}
use backend_go_role_organiza.Payment.Process.Customer.{get_or_create_customer}
use backend_go_role_organiza.Payment.Process.Cards.{is_credit_card, resolve_saved_card, save_card}
use backend_go_role_organiza.Payment.Process.Charge.{
  CardTokens, charge_request, with_charge, details, give_up,
}
use backend_go_role_organiza.Payment.Process.{Setup, new_transaction}
use backend_go_role_organiza.Payment.Batch.Charge.{batch_record_and_charge}
use backend_go_role_organiza.Payment.Batch.Checks.{first_missing, refusal, total_amount_cents}

abbrev is_unsuccessful : TransactionStatus → Bool
is_unsuccessful TransactionStatus.failed = true
is_unsuccessful TransactionStatus.cancelled = true
is_unsuccessful _ = false

unfoldable pub batch_response_from_tx : PaymentTransaction → BatchPaymentResponse
batch_response_from_tx tx = record {
  success = not (is_unsuccessful tx.status);
  processed_count = length tx.installment_ids;
  total_amount_cents = tx.amount_cents;
  transaction_id = tx.id;
  error = tx.failure_reason;
  message =
      if is_unsuccessful tx.status
      then "Falha ao processar lote de pagamento"
      else "Requisição idempotente: retornando transação existente";
}

abbrev pub is_empty : List String → Bool
is_empty [] = true
is_empty (_ ∷ _) = false

first_event : List PaymentInstallment → String
first_event [] = ""
first_event (i ∷ is) = i.event_id

-- The batch as a single payment: its total, and the event of its first installment.
unfoldable pub as_single : ProcessBatchPaymentInput → List PaymentInstallment → ProcessPaymentInput
unfolding first_event
as_single input is = record {
  user_id = input.user_id;
  event_id = first_event is;
  amount_cents = total_amount_cents (pos 0) is;
  method = input.method;
  idempotency_key = input.idempotency_key;
  cpf = input.cpf;
  client_ip = input.client_ip;
  credit_card = input.credit_card;
  save_card = input.save_card;
  saved_card_id = input.saved_card_id;
  installment_ids = map (λ i. i.id) is;
}

module _ (env : Env) (setup : Setup) where
  -- `FindParticipationIDsByUserID` of internal/adapter/mongodb/participant.go
  unfoldable pub find_participations : String → Action (List String)
  find_participations user = do
    driver env (λ reason. wrapped "find participation ids by user" (plain reason))
    gets (λ w. select is_set (map (λ p. p.1) (select (λ p. p.0 == user) w.participations)))

  -- From step 7 on.
  unfoldable pub batch_pay : ProcessPaymentInput → Action BatchPaymentResponse
  unfolding batch_record_and_charge
  batch_pay input = do
    card ← resolve_saved_card env input
    customer ←
        context "process batch payment: customer"
          (get_or_create_customer env input.user_id input.cpf)
    batch_record_and_charge env setup input customer card

  -- What follows the checks.
  unfoldable pub pay_unless :
      ProcessBatchPaymentInput
      → List PaymentInstallment
      → Option Error
      → Action BatchPaymentResponse
  unfolding batch_pay as_single
  pay_unless input is (some e) = raise e
  pay_unless input is none = batch_pay (as_single input is)

  -- Step 4 on, once every installment is found.
  unfoldable pub check_missing :
      ProcessBatchPaymentInput
      → List PaymentInstallment
      → Option String
      → Action BatchPaymentResponse
  unfolding find_participations pay_unless
  check_missing input is (some id) = raise (not_found "installment" id)
  check_missing input is none = do
    participations ←
        context "process batch payment: fetch participations" (find_participations input.user_id)
    pay_unless input is (refusal input participations is)

  -- Steps 2 and 3.
  unfoldable pub process_batch : ProcessBatchPaymentInput → Action BatchPaymentResponse
  unfolding check_missing
  process_batch input = do
    raise_if (is_empty input.installment_ids) (bad_request "installmentIds não pode ser vazio")
    is ← context "process batch payment: fetch installments" (find_by_ids env input.installment_ids)
    check_missing input is (first_missing input.installment_ids is)

  unfoldable pub after_batch_lookup :
      ProcessBatchPaymentInput → Result PaymentTransaction → Action BatchPaymentResponse
  unfolding process_batch batch_response_from_tx
  after_batch_lookup input (ok tx) = pure (batch_response_from_tx tx)
  after_batch_lookup input (err e) =
      if is_not_found e
      then process_batch input
      else raise (wrapped "process batch payment: idempotency check" e)

  unfoldable pub execute : ProcessBatchPaymentInput → Action BatchPaymentResponse
  unfolding after_batch_lookup
  execute input =
      if is_set input.idempotency_key
      then (do
        answer ← attempt (find_by_idempotency_key env input.idempotency_key)
        after_batch_lookup input answer)
      else process_batch input
