-- ===== src/Finance/Domain/Entities.antt =====
-- The entities of internal/domain/finance/entities.go.
use backend_go_role_organiza.Prelude.{ℕ, String, Bool, Option, List, ℤ}
use backend_go_role_organiza.Payment.Domain.{Float64}

pub record FinanceSummary : Type 0 where
  pub id : String
  pub event_id : String
  pub goal : ℤ
  pub collected : ℤ
  pub progress_percentage : Float64
  pub available_for_withdrawal : ℤ
  pub pending_withdrawals : ℤ
  pub last_calculated_at : ℕ

pub record Participant : Type 0 where
  pub id : String
  pub event_id : String
  pub user_id : String
  pub name : String
  pub email : String
  pub status : String

-- `PaymentInstallment` of the finance domain
pub record FinanceInstallment : Type 0 where
  pub id : String
  pub event_id : String
  pub participant_id : String
  pub amount : ℤ
  pub status : String
  pub payment_method : String
  pub paid_at : Option ℕ

-- `LedgerEntry` of the finance domain
pub record StatementEntry : Type 0 where
  pub id : String
  pub event_id : String
  pub entry_type : String
  pub amount : ℤ
  pub description : String
  pub occurred_at : ℕ
  pub accounting_class : String

pub record PaymentAccount : Type 0 where
  pub id : String
  pub user_id : String
  pub account_type : String
  pub pix_key : String
  pub pix_type : String
  pub bank_code : String
  pub agency_num : String
  pub account_num : String
  pub is_default : Bool
  pub active : Bool
  pub created_at : ℕ
  pub updated_at : ℕ

pub record FinanceOverview : Type 0 where
  pub event_id : String
  pub event_name : String
  pub goal : ℤ
  pub collected : ℤ
  pub progress_percentage : Float64
  pub available_for_withdrawal : ℤ
  pub pending_withdrawals : ℤ

pub record LedgerStatementPage : Type 0 where
  pub entries : List StatementEntry
  pub total_elements : ℕ
  pub total_pages : ℤ
  pub page : ℕ
  pub size : ℕ

pub record ParticipantPaymentStatus : Type 0 where
  pub participant_id : String
  pub name : String
  pub email : String
  pub status : String
  pub paid_amount : ℤ
  pub pending_amount : ℤ

pub record EventPaymentStatus : Type 0 where
  pub event_id : String
  pub total_paid : ℤ
  pub total_pending : ℤ
  pub total_overdue : ℤ
  pub paid_count : ℕ
  pub pending_count : ℕ

pub record AuditEntry : Type 0 where
  pub id : String
  pub event_id : String
  pub action : String
  pub actor_id : String
  pub description : String
  pub occurred_at : ℕ
