-- ===== src/Payment/Accounts.antt =====
-- manage_payment_accounts.go of internal/usecase/payment, with internal/adapter/mongodb's
-- payment_account.go.
use backend_go_role_organiza.Prelude.{
  ℕ, String, ◌==◌, Bool, true, false, not, ◌&&◌, ◌||◌, Option, none, some, List, [], ◌∷◌, ◌++◌,
  find, any, ltb, select, sort_by, update_first, update_where, join, if◌then◌else◌,
}
use backend_go_role_organiza.ApiErr.{internal, not_found, forbidden, bad_request}
use backend_go_role_organiza.Payment.Domain.{PayoutAccount}
use backend_go_role_organiza.World.{
  Env, Action, pure, raise, gets, modify, or_raise, context, ◌>>=◌, ◌>>◌, raise_if, time_now,
  new_uuid, driver,
}

pub record CreatePaymentAccountInput : Type 0 where
  pub user_id : String
  pub account_type : String
  pub pix_key_type : String
  pub pix_key : String
  pub bank_code : String
  pub bank_name : String
  pub agency : String
  pub account_number : String
  pub account_digit : String
  pub account_holder_name : String
  pub account_holder_document : String
  pub is_default : Bool

pub record UpdatePaymentAccountInput : Type 0 where
  pub pix_key_type : Option String
  pub pix_key : Option String
  pub bank_code : Option String
  pub bank_name : Option String
  pub agency : Option String
  pub account_number : Option String
  pub account_digit : Option String
  pub account_holder_name : Option String
  pub account_holder_document : Option String

abbrev pub is_payout_account : String → PayoutAccount → Bool
is_payout_account id a = a.id == id

-- The default account comes first, then the older one.
abbrev pub account_before : PayoutAccount → PayoutAccount → Bool
account_before a b =
    if a.is_default
    then not b.is_default || ltb a.created_at b.created_at
    else not b.is_default && ltb a.created_at b.created_at

unfoldable pub marked : Bool → ℕ → PayoutAccount → PayoutAccount
marked b now a = record a { is_default = b; updated_at = now }

-- What is wrong with an input, if anything.
unfoldable pub input_refusal : CreatePaymentAccountInput → Option String
input_refusal input =
    if input.account_type == ""
    then some "accountType é obrigatório"
    else if input.account_type == "PIX"
    then (if (input.pix_key_type == "") || (input.pix_key == "")
        then some "pixKeyType e pixKey são obrigatórios para contas PIX"
        else none)
    else if input.account_type == "BANK_ACCOUNT"
    then (if (input.account_holder_name == "") || (input.account_number == "")
        then some "accountHolderName e accountNumber são obrigatórios para contas bancárias"
        else none)
    else some (join ("accountType inválido: " ∷ input.account_type ∷ []))

abbrev pub is_first : List PayoutAccount → Bool
is_first [] = true
is_first (a ∷ as') = false

-- The input's own wish for a default is not looked at.
unfoldable pub opened_account : CreatePaymentAccountInput → Bool → ℕ → PayoutAccount
opened_account input is_default now = record {
  id = "";
  user_id = input.user_id;
  account_type = input.account_type;
  pix_key_type = input.pix_key_type;
  pix_key = input.pix_key;
  bank_code = input.bank_code;
  bank_name = input.bank_name;
  agency = input.agency;
  account_number = input.account_number;
  account_digit = input.account_digit;
  account_holder_name = input.account_holder_name;
  account_holder_document = input.account_holder_document;
  is_default = is_default;
  is_active = true;
  created_at = now;
  updated_at = now;
}

-- `if in.X != nil { acct.X = *in.X }`
abbrev pub or_old : Option String → String → String
or_old none old = old
or_old (some s) old = s

unfoldable pub changed_account : UpdatePaymentAccountInput → ℕ → PayoutAccount → PayoutAccount
changed_account input now a = record a {
  pix_key_type = or_old input.pix_key_type a.pix_key_type;
  pix_key = or_old input.pix_key a.pix_key;
  bank_code = or_old input.bank_code a.bank_code;
  bank_name = or_old input.bank_name a.bank_name;
  agency = or_old input.agency a.agency;
  account_number = or_old input.account_number a.account_number;
  account_digit = or_old input.account_digit a.account_digit;
  account_holder_name = or_old input.account_holder_name a.account_holder_name;
  account_holder_document = or_old input.account_holder_document a.account_holder_document;
  updated_at = now;
}

module _ (env : Env) where
  unfoldable pub insert_payout_account : PayoutAccount → Action PayoutAccount
  insert_payout_account a = do
    id ← new_uuid env
    driver env (λ reason. internal (join ("save payment account: " ∷ reason ∷ [])))
    let saved : PayoutAccount = record a { id = if a.id == "" then id else a.id }
    modify λ w. record w { payout_accounts = w.payout_accounts ++ saved ∷ [] }
    pure saved

  unfoldable pub replace_payout_account : PayoutAccount → Action PayoutAccount
  replace_payout_account a = do
    now ← time_now env
    driver env (λ reason. internal (join ("update payment account: " ∷ reason ∷ [])))
    found ← gets (λ w. any (is_payout_account a.id) w.payout_accounts)
    raise_if (not found) (not_found "payment_account" a.id)
    let saved : PayoutAccount = record a { updated_at = now }
    modify λ w. record w {
      payout_accounts = update_first (is_payout_account a.id) (λ _. saved) w.payout_accounts;
    }
    pure saved

  unfoldable pub find_payout_account : String → Action PayoutAccount
  find_payout_account id = do
    driver env (λ reason. internal (join ("find payment account by id: " ∷ reason ∷ [])))
    found ← gets (λ w. find (is_payout_account id) w.payout_accounts)
    or_raise found (not_found "payment_account" id)

  unfoldable pub find_payout_accounts : String → Action (List PayoutAccount)
  unfolding sort_by
  find_payout_accounts user_id = do
    driver env (λ reason. internal (join ("find payment accounts by user: " ∷ reason ∷ [])))
    gets λ w.
        sort_by account_before (select (λ a. a.user_id == user_id && a.is_active) w.payout_accounts)

  unfoldable pub mark_default : String → String → Action (Unit {0})
  unfolding marked
  mark_default user_id account_id = do
    now ← time_now env
    driver env (λ reason. internal (join ("set default payment account (clear): " ∷ reason ∷ [])))
    modify λ w. record w {
      payout_accounts =
          update_where (λ a. a.user_id == user_id) (marked false now) w.payout_accounts;
    }
    driver env (λ reason. internal (join ("set default payment account (set): " ∷ reason ∷ [])))
    found ← gets (λ w. any (is_payout_account account_id) w.payout_accounts)
    raise_if (not found) (not_found "payment_account" account_id)
    modify λ w. record w {
      payout_accounts =
          update_first (is_payout_account account_id) (marked true now) w.payout_accounts;
    }

  unfoldable pub deactivate_account : String → Action (Unit {0})
  deactivate_account id = do
    now ← time_now env
    driver env (λ reason. internal (join ("soft-delete payment account: " ∷ reason ∷ [])))
    found ← gets (λ w. any (is_payout_account id) w.payout_accounts)
    raise_if (not found) (not_found "payment_account" id)
    modify λ w. record w {
      payout_accounts =
          update_first (is_payout_account id)
            (λ a. record a { is_active = false; updated_at = now }) w.payout_accounts;
    }

  unfoldable pub list_payout_accounts : String → Action (List PayoutAccount)
  unfolding find_payout_accounts
  list_payout_accounts user_id = context "listar contas de pagamento" (find_payout_accounts user_id)

  unfoldable pub open_account : CreatePaymentAccountInput → Action PayoutAccount
  unfolding find_payout_accounts opened_account insert_payout_account
  open_account input = do
    existing ← context "verificar contas existentes" (find_payout_accounts input.user_id)
    now ← time_now env
    context "criar conta de pagamento"
        (insert_payout_account (opened_account input (is_first existing) now))

  unfoldable pub create_payment_account : CreatePaymentAccountInput → Action PayoutAccount
  unfolding input_refusal open_account
  create_payment_account input = elim (input_refusal input) [
    | none ↦ open_account input
    | some message ↦ raise (bad_request message)
  ]

  -- `FindByID` and the check of the owner, with which the other use cases begin.
  unfoldable pub own_account : String → String → String → Action PayoutAccount
  unfolding find_payout_account
  own_account what account_id user_id = do
    a ← context what (find_payout_account account_id)
    raise_if (not (a.user_id == user_id)) (forbidden "acesso negado: conta não pertence ao usuário")
    pure a

  unfoldable pub change_account : String → String → UpdatePaymentAccountInput → Action PayoutAccount
  unfolding own_account changed_account replace_payout_account
  change_account account_id user_id input = do
    a ← own_account "buscar conta para atualização" account_id user_id
    now ← time_now env
    context "atualizar conta de pagamento" (replace_payout_account (changed_account input now a))

  unfoldable pub choose_account : String → String → Action (Unit {0})
  unfolding own_account mark_default
  choose_account account_id user_id = do
    own_account "buscar conta para definir padrão" account_id user_id
    context "definir conta padrão" (mark_default user_id account_id)

  unfoldable pub remove_account : String → String → Action (Unit {0})
  unfolding own_account deactivate_account
  remove_account account_id user_id = do
    own_account "buscar conta para remoção" account_id user_id
    context "remover conta de pagamento" (deactivate_account account_id)
