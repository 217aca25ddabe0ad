-- ===== src/Payment/Domain/Transaction.antt =====
-- internal/domain/payment/transaction.go
use backend_go_role_organiza.Prelude.{ℕ, String, ◌==◌, Bool, true, false, Option, some, List, ℤ}

pub data PaymentMethod : Type 0 where
  pix boleto credit_card : PaymentMethod
  other : String → PaymentMethod

-- `string(method)`
unfoldable pub method_text : PaymentMethod → String
method_text PaymentMethod.pix = "PIX"
method_text PaymentMethod.boleto = "BOLETO"
method_text PaymentMethod.credit_card = "CREDIT_CARD"
method_text (PaymentMethod.other s) = s

pub data TransactionStatus : Type 0 where
  pending processing completed failed cancelled : TransactionStatus

pub record PaymentMetadata : Type 0 where
  pub pix_qr_code_image : String
  pub pix_qr_code_text : String
  pub pix_key : String
  pub pix_expires_at : Option ℕ
  pub boleto_code : String
  pub boleto_digitable_line : String
  pub boleto_pdf_url : String
  pub boleto_due_date : Option ℕ
  pub card_last4 : String
  pub card_brand : String
  pub credit_card_installments : ℤ
  pub installment_amount_cents : ℤ
  pub tokenized_card : String
  pub invoice_url : String
  pub bank_slip_url : String
  pub provider : String
  pub billing_type : String

pub record PaymentTransaction : Type 0 where
  pub id : String
  pub user_id : String
  pub event_id : String
  pub installment_ids : List String
  pub amount_cents : ℤ
  pub currency : String
  pub payment_method : PaymentMethod
  pub provider : String
  pub status : TransactionStatus
  pub idempotency_key : String
  pub provider_transaction_id : String
  pub metadata : PaymentMetadata
  pub fee_policy_snapshot_version : String
  pub fee_policy_snapshot_captured_at : Option ℕ
  pub created_at : ℕ
  pub updated_at : ℕ
  pub completed_at : Option ℕ
  pub expires_at : Option ℕ
  pub failure_reason : String

unfoldable pub is_owner : PaymentTransaction → String → Bool
is_owner t user = t.user_id == user

abbrev pub is_final : TransactionStatus → Bool
is_final TransactionStatus.completed = true
is_final TransactionStatus.failed = true
is_final TransactionStatus.cancelled = true
is_final _ = false

-- `IsTerminal`
abbrev pub is_terminal : PaymentTransaction → Bool
is_terminal t = is_final t.status

unfoldable pub mark_completed : ℕ → PaymentTransaction → PaymentTransaction
mark_completed at t = record t {
  status = TransactionStatus.completed;
  completed_at = some at;
  updated_at = at;
}

-- `at` is the reading of `time.Now()`.
unfoldable pub mark_failed : String → ℕ → PaymentTransaction → PaymentTransaction
mark_failed reason at t = record t {
  status = TransactionStatus.failed;
  failure_reason = reason;
  updated_at = at;
}

-- The three assignments with which the callback, the expiry and the reconciliation cancel.
unfoldable pub mark_cancelled : String → ℕ → PaymentTransaction → PaymentTransaction
mark_cancelled reason at t = record t {
  status = TransactionStatus.cancelled;
  failure_reason = reason;
  updated_at = at;
}
