-- ===== src/Finance/Repository/Accounts.antt =====
-- `PaymentAccountMongoRepository` of internal/adapter/mongodb/finance.go, for users whose identifier is
-- the canonical text of a UUID: it is compared by its text.
use backend_go_role_organiza.Prelude.{
  ℕ, String, ◌==◌, Bool, true, false, not, ◌&&◌, List, [], ◌∷◌, ◌++◌, find, any, eqb, select,
  update_first, update_where, join, if◌then◌else◌,
}
use backend_go_role_organiza.ApiErr.{internal, not_found}
use backend_go_role_organiza.Finance.Domain.{PaymentAccount}
use backend_go_role_organiza.World.{
  Env, Action, pure, gets, modify, or_raise, ◌>>=◌, ◌>>◌, raise_if, time_now, new_object_id, driver,
}

-- The filter of the identifier and of the owner.
abbrev pub is_account : String → String → PaymentAccount → Bool
is_account id user_id a = a.id == id && a.user_id == user_id

abbrev pub is_of_user : String → PaymentAccount → Bool
is_of_user user_id a = a.user_id == user_id

-- What `$set` writes.
unfoldable pub set_account : PaymentAccount → ℕ → PaymentAccount → PaymentAccount
set_account a now d = record d {
  account_type = a.account_type;
  pix_key = a.pix_key;
  pix_type = a.pix_type;
  bank_code = a.bank_code;
  agency_num = a.agency_num;
  account_num = a.account_num;
  is_default = a.is_default;
  updated_at = now;
}

module _ (env : Env) where
  unfoldable pub find_accounts : String → Action (List PaymentAccount)
  find_accounts user_id = do
    driver env internal
    gets λ w. select (λ a. is_of_user user_id a && a.active) w.payment_accounts

  unfoldable pub find_account : String → String → Action PaymentAccount
  find_account id user_id = do
    driver env internal
    found ← gets (λ w. find (is_account id user_id) w.payment_accounts)
    or_raise found (not_found "payment_account" id)

  unfoldable pub save_account : PaymentAccount → Action PaymentAccount
  save_account a = do
    now ← time_now env
    id ← new_object_id env
    driver env (λ reason. internal (join ("saving payment_account: " ∷ reason ∷ [])))
    let saved : PaymentAccount = record a {
      id = id;
      created_at = if eqb a.created_at 0 then now else a.created_at;
      updated_at = now;
      active = true;
    }
    modify λ w. record w { payment_accounts = w.payment_accounts ++ saved ∷ [] }
    pure saved

  unfoldable pub update_account : PaymentAccount → Action PaymentAccount
  unfolding set_account
  update_account a = do
    now ← time_now env
    driver env internal
    found ← gets (λ w. any (is_account a.id a.user_id) w.payment_accounts)
    raise_if (not found) (not_found "payment_account" a.id)
    modify λ w. record w {
      payment_accounts =
          update_first (is_account a.id a.user_id) (set_account a now) w.payment_accounts;
    }
    pure (record a { updated_at = now })

  unfoldable pub clear_default : String → Action (Unit {0})
  clear_default user_id = do
    driver env internal
    modify λ w. record w {
      payment_accounts =
          update_where (is_of_user user_id) (λ a. record a { is_default = false })
            w.payment_accounts;
    }

  unfoldable pub soft_delete : String → String → Action (Unit {0})
  soft_delete id user_id = do
    driver env internal
    found ← gets (λ w. any (is_account id user_id) w.payment_accounts)
    raise_if (not found) (not_found "payment_account" id)
    modify λ w. record w {
      payment_accounts =
          update_first (is_account id user_id) (λ a. record a { active = false })
            w.payment_accounts;
    }
