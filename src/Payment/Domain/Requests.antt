-- ===== src/Payment/Domain/Requests.antt =====
-- The inputs of internal/port/in and the provider records of internal/port/out that the payment use
-- cases exchange.
use backend_go_role_organiza.Prelude.{ℕ, String, Bool, Option, List, ℤ}
use backend_go_role_organiza.Payment.Domain.Transaction.{PaymentMethod}

pub record CreditCardInput : Type 0 where
  pub holder_name : String
  pub number : String
  pub expiry_month : String
  pub expiry_year : String
  pub cvv : String
  pub installments : ℤ
  pub token_ref : String

pub record ProcessPaymentInput : Type 0 where
  pub user_id : String
  pub event_id : String
  pub amount_cents : ℤ
  pub method : PaymentMethod
  pub idempotency_key : String
  pub cpf : String
  pub client_ip : String
  pub credit_card : Option CreditCardInput
  pub save_card : Bool
  pub saved_card_id : String
  pub installment_ids : List String

pub record ProcessBatchPaymentInput : Type 0 where
  pub user_id : String
  pub installment_ids : List String
  pub method : PaymentMethod
  pub idempotency_key : String
  pub cpf : String
  pub client_ip : String
  pub credit_card : Option CreditCardInput
  pub save_card : Bool
  pub saved_card_id : String

pub record BatchPaymentResponse : Type 0 where
  pub success : Bool
  pub processed_count : ℕ
  pub total_amount_cents : ℤ
  pub transaction_id : String
  pub error : String
  pub message : String

-- `PaymentCallbackPayload`; the raw body is carried along and never read.
pub record PaymentCallbackPayload : Type 0 where
  pub provider : String
  pub provider_event_id : String
  pub provider_transaction_id : String
  pub event_type : String
  pub new_status : String

pub data PaymentBillingType : Type 0 where
  pix boleto credit_card : PaymentBillingType

pub record CreatePaymentRequest : Type 0 where
  pub customer_id : String
  pub billing_type : PaymentBillingType
  pub value_cents : ℤ
  pub due_date : String
  pub external_reference : String
  pub description : String
  pub credit_card_token : String

pub record ProviderPayment : Type 0 where
  pub id : String
  pub customer_id : String
  pub status : String
  pub value_cents : ℤ
  pub due_date : String
  pub external_reference : String
  pub invoice_url : String
  pub bank_slip_url : String

pub record ProviderPixQrCode : Type 0 where
  pub encoded_image : String
  pub payload : String
  pub expiration_date : ℕ

pub record ProviderIdentificationField : Type 0 where
  pub identification_field : String
  pub nosso_numero : String
  pub bar_code : String

pub record ProviderCardToken : Type 0 where
  pub token : String
  pub brand : String
  pub last_four : String

-- The user fields that the payment use cases read.
pub record Usuario : Type 0 where
  pub id : String
  pub nome : String
  pub email : String
  pub cpf : String

-- A `SignalWorkflow` call: workflow, signal name and argument.
pub record Signal : Type 0 where
  pub workflow_id : String
  pub signal_name : String
  pub reason : String

-- A `StartWorkflow` call: workflow, type, and the fields of its input that identify the payment.
pub record WorkflowStart : Type 0 where
  pub workflow_id : String
  pub workflow_type : String
  pub reference : String
  pub callback_type : String
  pub failure_reason : String
  pub provider_event_id : String
  pub expires_at_millis : ℤ

-- The notification that `notifyParticipant` asks for.
pub record Notificacao : Type 0 where
  pub usuario_id : String
  pub transaction_id : String
  pub event_id : String
  pub amount_cents : ℤ
