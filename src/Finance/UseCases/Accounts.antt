-- ===== src/Finance/UseCases/Accounts.antt =====
-- `ManagePaymentAccounts` of internal/usecase/finance/finance.go.
use backend_go_role_organiza.Prelude.{
  is_some, Option, none, some, ℤ, join, ℕ, String, ◌==◌, true, false, ◌&&◌, List, [], ◌∷◌, is_set,
  upper_in, upper_text, if◌then◌else◌,
}
use backend_go_role_organiza.ApiErr.{bad_request}
use backend_go_role_organiza.Finance.Domain.{PaymentAccount}
use backend_go_role_organiza.Finance.Rules.{pix_key_error}
use backend_go_role_organiza.Finance.Repository.{
  find_accounts, find_account, save_account, update_account, clear_default, soft_delete,
}
use backend_go_role_organiza.World.{Env, Action, pure, context, ◌>>=◌, ◌>>◌, raise_if, time_now}

pub record FinanceCreateAccountInput : Type 0 where
  pub user_id : String
  pub account_type : String
  pub pix_key : String
  pub pix_type : String
  pub bank_code : String
  pub agency_num : String
  pub account_num : String

pub record FinanceUpdateAccountInput : Type 0 where
  pub account_id : String
  pub user_id : String
  pub account_type : String
  pub pix_key : String
  pub pix_type : String
  pub bank_code : String
  pub agency_num : String
  pub account_num : String

-- The new text, unless it is empty.
abbrev pub non_empty_or : String → String → String
non_empty_or new old = if new == "" then old else new

unfoldable pub new_account : FinanceCreateAccountInput → ℕ → PaymentAccount
unfolding upper_text
new_account input now = record {
  id = "";
  user_id = input.user_id;
  account_type = upper_text input.account_type;
  pix_key = input.pix_key;
  pix_type = upper_text input.pix_type;
  bank_code = input.bank_code;
  agency_num = input.agency_num;
  account_num = input.account_num;
  is_default = false;
  active = true;
  created_at = now;
  updated_at = now;
}

unfoldable pub edited_account : FinanceUpdateAccountInput → ℕ → PaymentAccount → PaymentAccount
unfolding upper_text
edited_account input now a = record a {
  account_type = upper_text (non_empty_or input.account_type a.account_type);
  pix_key = non_empty_or input.pix_key a.pix_key;
  pix_type = upper_text (non_empty_or input.pix_type a.pix_type);
  bank_code = input.bank_code;
  agency_num = input.agency_num;
  account_num = input.account_num;
  updated_at = now;
}

-- `fmt.Sprintf("chave PIX inválida: %s", err.Error())`
unfoldable pub pix_refusal : Option String → String
pix_refusal none = ""
pix_refusal (some reason) = join ("chave PIX inválida: " ∷ reason ∷ [])

-- What is wrong with the PIX key of an update, if anything.
unfoldable pub update_error :
    (ℤ → String) → FinanceUpdateAccountInput → PaymentAccount → Option String
unfolding pix_key_error
update_error decimal input a =
    if upper_in (non_empty_or input.account_type a.account_type) ("PIX" ∷ [])
      && is_set (non_empty_or input.pix_key a.pix_key)
    then pix_key_error decimal (non_empty_or input.pix_type a.pix_type)
        (non_empty_or input.pix_key a.pix_key)
    else none

-- The same of a new account.
unfoldable pub create_error : (ℤ → String) → FinanceCreateAccountInput → Option String
unfolding pix_key_error
create_error decimal input =
    if upper_in input.account_type ("PIX" ∷ [])
    then pix_key_error decimal input.pix_type input.pix_key
    else none

module _ (env : Env) where
  unfoldable pub list_accounts : String → Action (List PaymentAccount)
  unfolding find_accounts
  list_accounts user_id = context "listar contas de pagamento" (find_accounts env user_id)

  unfoldable pub create_account : FinanceCreateAccountInput → Action PaymentAccount
  unfolding create_error pix_refusal new_account save_account
  create_account input = do
    let problem : Option String = create_error env.decimal input
    raise_if (is_some problem) (bad_request (pix_refusal problem))
    now ← time_now env
    context "salvar conta de pagamento" (save_account env (new_account input now))

  unfoldable pub update_payment_account : FinanceUpdateAccountInput → Action PaymentAccount
  unfolding find_account update_error pix_refusal edited_account update_account
  update_payment_account input = do
    account ← context "buscar conta de pagamento" (find_account env input.account_id input.user_id)
    let problem : Option String = update_error env.decimal input account
    raise_if (is_some problem) (bad_request (pix_refusal problem))
    now ← time_now env
    context "atualizar conta de pagamento" (update_account env (edited_account input now account))

  -- The default of the user's accounts is cleared first, and the chosen account is written after it.
  unfoldable pub set_default : String → String → Action (Unit {0})
  unfolding find_account clear_default update_account
  set_default account_id user_id = do
    context "conta de pagamento não encontrada" (find_account env account_id user_id)
    context "limpar default das contas" (clear_default env user_id)
    account ← context "recarregar conta de pagamento" (find_account env account_id user_id)
    now ← time_now env
    context "setar conta como default"
        (update_account env (record account { is_default = true; updated_at = now }))
    pure tt

  unfoldable pub delete_account : String → String → Action (Unit {0})
  unfolding find_account soft_delete
  delete_account account_id user_id = do
    context "conta de pagamento não encontrada" (find_account env account_id user_id)
    context "desativar conta de pagamento" (soft_delete env account_id user_id)
