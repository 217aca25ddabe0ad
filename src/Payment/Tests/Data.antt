-- ===== src/Payment/Tests/Data.antt =====
-- A database, an outside and a webhook event for the examples.
use backend_go_role_organiza.Prelude.{
  refl, eqb, ℕ, String, ◌+◌, ◌*◌, ◌/◌, Bool, true, false, none, some, [], ◌∷◌, pos, ltb_ℤ, pos_part,
}
use backend_go_role_organiza.Payment.Domain.{
  PaymentMethod, PaymentTransaction, TransactionStatus, PaymentCallbackPayload, ProcessPaymentInput,
  ProviderPayment, SavedCreditCard, PaymentInstallment, InstallmentStatus, FeePolicySnapshot,
}
use backend_go_role_organiza.Payment.Transactions.Laws.{IsUnique}
use backend_go_role_organiza.World.{World, Env, FloatOps}
use backend_go_role_organiza.Payment.Callback.Handlers.{Wiring}
use backend_go_role_organiza.Payment.Process.{Setup, no_metadata}

-- Fixed-point numbers stand in for the floats.
abbrev pub floats : FloatOps
floats = record {
  of_int64 = pos_part;
  add = λ x y. x + y;
  mul = λ x y. x;
  div = λ x y. x / 50;
  is_zero = λ x. eqb x 0;
  round_to_int64 = pos;
  round = λ x. x;
  ceil = λ x. x;
  to_int64 = pos;
}

abbrev pub charged : ProviderPayment
charged = record {
  id = "pay_1";
  customer_id = "cus_1";
  status = "PENDING";
  value_cents = pos 5000;
  due_date = "2026-01-02";
  external_reference = "uuid";
  invoice_url = "https://pay";
  bank_slip_url = "";
}

-- The database answers, except at the calls that `down` names.
abbrev pub outside : (ℕ → Bool) → Env
outside down = record {
  fails = down;
  reason = λ n. "timeout";
  now = λ n. n;
  uuid = λ n. "uuid";
  object_id = λ n. "oid";
  is_object_id = λ s. true;
  parse_uuid = λ s. some s;
  bson_date = λ t. t / 1_000_000 * 1_000_000;
  floats = floats;
  month = λ t. "2026-01";
  next_day = λ t. "2026-01-02";
  rfc3339 = λ t. "2026-01-01T00:00:00Z";
  refuses_skip = λ skip. ltb_ℤ skip (pos 0);
  decimal = λ n. "5000";
  parse_date = λ s. none;
  customer = λ n u c. some "cus_1";
  charge = λ n r. some charged;
  payment = λ n id. some (record charged { status = "RECEIVED" });
  pix_code = λ n id. none;
  boleto_field = λ n id. none;
  card_token = λ n c i. none;
}

abbrev pub env : Env
env = outside (λ n. false)

abbrev pub tx : String → String → TransactionStatus → PaymentTransaction
tx id provider_id status = record {
  id = id;
  user_id = "u1";
  event_id = "e1";
  installment_ids = [];
  amount_cents = pos 5000;
  currency = "BRL";
  payment_method = PaymentMethod.pix;
  provider = "ASAAS";
  status = status;
  idempotency_key = id;
  provider_transaction_id = provider_id;
  metadata = no_metadata;
  fee_policy_snapshot_version = "global-v1";
  fee_policy_snapshot_captured_at = none;
  created_at = 1;
  updated_at = 1;
  completed_at = none;
  expires_at = none;
  failure_reason = "";
}

abbrev pub settled : PaymentTransaction
settled = tx "t1" "pay_1" TransactionStatus.completed

abbrev pub waiting_tx : PaymentTransaction
waiting_tx = tx "t2" "pay_2" TransactionStatus.pending

abbrev pub foreign_card : SavedCreditCard
foreign_card = record {
  id = "card_1";
  user_id = "someone else";
  last_four_digits = "4242";
  brand = "VISA";
  holder_name = "S. Else";
  expiration_date = "12/30";
  token_ref = "tok_1";
  is_default = true;
  is_active = true;
  created_at = 1;
  updated_at = 1;
}

abbrev pub world : World
world = record {
  transactions = settled ∷ waiting_tx ∷ [];
  installments = [];
  webhook_events = [];
  allocations = [];
  ledger_entries = [];
  snapshot_events = [];
  saved_cards = foreign_card ∷ [];
  customer_links = [];
  fee_configs = [];
  usuarios = record { id = "u1"; nome = "Ana"; email = "ana@example.org"; cpf = "" } ∷ [];
  participations = [];
  notifications = [];
  signals = [];
  workflow_starts = [];
  charges = [];
  eventos = [];
  drafts = [];
  participants = [];
  social_features = [];
  rateios = [];
  fechamentos = [];
  finance_summaries = [];
  finance_installments = [];
  statement_entries = [];
  payment_accounts = [];
  payout_accounts = [];
  audit_trail = [];
  contribuicoes = [];
  reminders = [];
  calls = 0;
}

abbrev pub wiring : Wiring
wiring = record {
  has_allocation = true;
  has_subledger = true;
  has_notifications = true;
  has_signaler = true;
  has_starter = true;
}

abbrev pub setup : Setup
setup = record { provider_name = "ASAAS"; has_starter = true }

abbrev pub event : String → String → PaymentCallbackPayload
event provider_id status = record {
  provider = "ASAAS";
  provider_event_id = "evt_1";
  provider_transaction_id = provider_id;
  event_type = "PAYMENT_RECEIVED";
  new_status = status;
}

abbrev pub input : PaymentMethod → ProcessPaymentInput
input method = record {
  user_id = "u1";
  event_id = "e1";
  amount_cents = pos 5000;
  method = method;
  idempotency_key = "t1";
  cpf = "12345678909";
  client_ip = "";
  credit_card = none;
  save_card = false;
  saved_card_id = "card_1";
  installment_ids = [];
}

abbrev pub installment : String → ℕ → PaymentInstallment
installment liability cents = record {
  id = liability;
  event_id = "e1";
  liability_id = liability;
  participant_id = "u1";
  installment_number = pos 1;
  total_installments = pos 1;
  amount_cents = pos cents;
  due_date = 1;
  status = InstallmentStatus.pending;
  transaction_id = "";
  paid_at = none;
  payment_method = "";
  payment_reference = "";
  overdue_notification_sent = false;
  created_at = 1;
  updated_at = 1;
}

abbrev pub policy : FeePolicySnapshot
policy = record {
  fee_policy_source = "EVENT:e1";
  platform_fee_percent = 50;
  platform_fee_fixed_cents = pos 10;
  psp_fee_percent = 100;
  psp_fee_fixed_cents = pos 49;
  version = "v2";
}

pub world-IsUnique : IsUnique world.transactions
world-IsUnique = (refl, (refl, tt))

-- The database fails when the transaction is updated.
abbrev pub flaky : Env
flaky = outside (λ n. eqb n 7)

abbrev pub batch_world : World
batch_world = record world {
  installments = installment "l1" 333 ∷ installment "l2" 667 ∷ installment "l3" 10 ∷ [];
}
