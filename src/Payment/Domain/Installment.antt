-- ===== src/Payment/Domain/Installment.antt =====
-- internal/domain/payment: installment.go, webhook_event.go, saved_card.go, customer_link.go, the fee
-- records of fee_policy.go, and the documents of the shared collections that the use cases write.
use backend_go_role_organiza.Prelude.{ℕ, String, Bool, true, false, Option, ℤ}

-- A float64 by its bit pattern.
abbrev pub Float64 : Type 0
Float64 = ℕ

pub data InstallmentStatus : Type 0 where
  pending processing paid overdue cancelled : InstallmentStatus

abbrev pub is_paid : InstallmentStatus → Bool
is_paid InstallmentStatus.paid = true
is_paid _ = false

-- `PENDING` or `OVERDUE`
abbrev pub is_open : InstallmentStatus → Bool
is_open InstallmentStatus.pending = true
is_open InstallmentStatus.overdue = true
is_open _ = false

pub record PaymentInstallment : Type 0 where
  pub id : String
  pub event_id : String
  pub liability_id : String
  pub participant_id : String
  pub installment_number : ℤ
  pub total_installments : ℤ
  pub amount_cents : ℤ
  pub due_date : ℕ
  pub status : InstallmentStatus
  pub transaction_id : String
  pub paid_at : Option ℕ
  pub payment_method : String
  pub payment_reference : String
  pub overdue_notification_sent : Bool
  pub created_at : ℕ
  pub updated_at : ℕ

pub record ProcessedWebhookEvent : Type 0 where
  pub id : String
  pub provider : String
  pub event_id : String
  pub provider_transaction_id : String
  pub event_type : String
  pub processed_at : ℕ

pub record SavedCreditCard : Type 0 where
  pub id : String
  pub user_id : String
  pub last_four_digits : String
  pub brand : String
  pub holder_name : String
  pub expiration_date : String
  pub token_ref : String
  pub is_default : Bool
  pub is_active : Bool
  pub created_at : ℕ
  pub updated_at : ℕ

pub record AsaasCustomerLink : Type 0 where
  pub user_id : String
  pub asaas_customer_id : String
  pub created_at : ℕ
  pub updated_at : ℕ

pub record FeePolicySnapshot : Type 0 where
  pub fee_policy_source : String
  pub platform_fee_percent : Float64
  pub platform_fee_fixed_cents : ℤ
  pub psp_fee_percent : Float64
  pub psp_fee_fixed_cents : ℤ
  pub version : String

pub record FeeCalculationResult : Type 0 where
  pub gross_amount_cents : ℤ
  pub psp_fee_applied_cents : ℤ
  pub platform_fee_applied_cents : ℤ
  pub net_amount_cents : ℤ

-- The fields of `EventoConfigPagamento` that the fee policy reads.
pub record EventoConfigPagamento : Type 0 where
  pub evento_id : String
  pub platform_fee_percent : Float64
  pub psp_fee_percent : Float64
  pub platform_fee_fixed_cents : ℤ
  pub psp_fee_fixed_cents : ℤ
  pub fee_policy_version : String

-- `installmentAllocationDocument`
pub record InstallmentAllocation : Type 0 where
  pub id : String
  pub installment_id : String
  pub liability_id : String
  pub amount_cents : ℤ
  pub proportion_pct : Float64
  pub created_at : ℕ

-- `ledgerEntryDocument`, with the entries of its metadata map that carry amounts and references.
pub record LedgerEntry : Type 0 where
  pub source_event_id : String
  pub source_type : String
  pub entry_type : String
  pub committed_delta_cents : ℤ
  pub transaction_id : String
  pub provider : String
  pub payment_method : String
  pub gross_amount_cents : ℤ
  pub psp_fee_applied_cents : Option ℤ
  pub platform_fee_applied_cents : Option ℤ
  pub net_amount_cents : Option ℤ
  pub fee_policy_source : String
  pub reconciliation_key : String
  pub provider_transaction_id : String
  pub completed_at : Option ℕ
  pub competence_month : String
  pub created_at : ℕ

-- `ledgerSnapshotEventDocument`
pub record SnapshotEvent : Type 0 where
  pub id : String
  pub last_event_id : String
  pub event_id : String
  pub processed_at : ℕ
  pub updated_at : ℕ
