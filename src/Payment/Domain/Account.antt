-- ===== src/Payment/Domain/Account.antt =====
-- internal/domain/payment/account.go.
use backend_go_role_organiza.Prelude.{ℕ, String, Bool}

-- `PaymentAccount` of the payment domain
pub record PayoutAccount : Type 0 where
  pub id : String
  pub user_id : String
  pub account_type : String
  pub pix_key_type : String
  pub pix_key : String
  pub bank_code : String
  pub bank_name : String
  pub agency : String
  pub account_number : String
  pub account_digit : String
  pub account_holder_name : String
  pub account_holder_document : String
  pub is_default : Bool
  pub is_active : Bool
  pub created_at : ℕ
  pub updated_at : ℕ
