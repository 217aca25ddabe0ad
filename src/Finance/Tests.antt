-- ===== src/Finance/Tests.antt =====
-- The theorems on the finances at concrete inputs.
use backend_go_role_organiza.Prelude.{
  String, ◌≡◌, ◌≢◌, refl, false, true, none, [], ◌∷◌, find, any, some, pos, arith,
}
use backend_go_role_organiza.Payment.Tests.Data.{env, world}
use backend_go_role_organiza.Finance.Domain.{
  FinanceInstallment, PaymentAccount, LedgerStatementPage,
}
use backend_go_role_organiza.Finance.Repository.{is_account}
use backend_go_role_organiza.Finance.UseCases.{
  GetLedgerStatementInput, get_ledger_statement, set_default, send_payment_reminders,
}
use backend_go_role_organiza.Finance.Pages.{first_page_refused}
use backend_go_role_organiza.Finance.Default.{is_other_default, default_chosen}
use backend_go_role_organiza.Finance.Reminders.{is_err, IsReminding, reminded_once}
use backend_go_role_organiza.World.{
  World, ok, ◌>>=◌, driver, gets, or_raise, context, wrap, time_now, modify, pure,
}

abbrev statement : GetLedgerStatementInput
statement = record {
  event_id = "e1";
  user_id = "u1";
  entry_type = "all";
  from = none;
  to = none;
  page = pos 0;
  size = pos 20;
}

abbrev empty_page : LedgerStatementPage
empty_page = record { entries = []; total_elements = 0; total_pages = pos 0; page = 0; size = 20 }

first_page_refused_example : (get_ledger_statement env statement world).0 ≢ ok empty_page
first_page_refused_example =
    first_page_refused env statement world (λ n. ground arith) refl empty_page

abbrev account : String → PaymentAccount
account id = record {
  id = id;
  user_id = "u1";
  account_type = "PIX";
  pix_key = "+5511999999999";
  pix_type = "PHONE";
  bank_code = "";
  agency_num = "";
  account_num = "";
  is_default = true;
  active = true;
  created_at = 1;
  updated_at = 1;
}

abbrev accounts_world : World
accounts_world = record world { payment_accounts = account "a1" ∷ account "a2" ∷ [] }

default_chosen_example :
    let accounts = (set_default env "a2" "u1" accounts_world).1.payment_accounts in
    (any (is_other_default "a2" "u1") accounts ≡ false)
    × ((a : PaymentAccount) × (find (is_account "a2" "u1") accounts ≡ some a)
        × (a.is_default ≡ true))
unfolding set_default ◌>>=◌ driver gets or_raise context wrap time_now modify pure
default_chosen_example = default_chosen env "a2" "u1" accounts_world refl

abbrev due : String → FinanceInstallment
due id = record {
  id = id;
  event_id = "e1";
  participant_id = "p1";
  amount = pos 100;
  status = "OVERDUE";
  payment_method = "";
  paid_at = none;
}

abbrev late_world : World
late_world = record world { finance_installments = due "i1" ∷ due "i2" ∷ [] }

reminded_once_example :
    IsReminding "e1" []
      (due "i1" ∷ due "i2" ∷ [])
      []
      (send_payment_reminders env true "e1" late_world)
    × ((send_payment_reminders env false "e1" late_world).1.reminders ≡ [])
    × (is_err (send_payment_reminders env false "e1" late_world).0 ≡ false)
reminded_once_example = reminded_once env "e1" late_world refl
