-- ===== src/World/Outside.antt =====
-- The database and the outside.
use backend_go_role_organiza.Prelude.{ℕ, String, Bool, Option, List, ℤ}
use backend_go_role_organiza.Payment.Domain.{
  PayoutAccount, PaymentTransaction, PaymentInstallment, ProcessedWebhookEvent,
  InstallmentAllocation, LedgerEntry, SnapshotEvent, SavedCreditCard, AsaasCustomerLink,
  EventoConfigPagamento, Usuario, Signal, WorkflowStart, Notificacao, CreatePaymentRequest,
  ProviderPayment, ProviderPixQrCode, ProviderIdentificationField, ProviderCardToken,
  CreditCardInput, Float64,
}
use backend_go_role_organiza.Event.Domain.{EventoDocument, EventoDraftDocument}
use backend_go_role_organiza.Social.Domain.{EventoSocialFeatures}
use backend_go_role_organiza.Finance.Domain.{
  FinanceSummary, Participant, FinanceInstallment, StatementEntry, PaymentAccount, AuditEntry,
}
use backend_go_role_organiza.Rateio.Domain.{RateioDocument, RateioFechamento}
use backend_go_role_organiza.Cofrinho.Domain.{CofrinhoContribuicao}

pub record World : Type 0 where
  pub transactions : List PaymentTransaction
  pub installments : List PaymentInstallment
  pub webhook_events : List ProcessedWebhookEvent
  pub allocations : List InstallmentAllocation
  pub ledger_entries : List LedgerEntry
  pub snapshot_events : List SnapshotEvent
  pub saved_cards : List SavedCreditCard
  pub customer_links : List AsaasCustomerLink
  pub fee_configs : List EventoConfigPagamento
  pub usuarios : List Usuario
  -- (user, participation identifier)
  pub participations : List (String × String)
  pub notifications : List Notificacao
  pub signals : List Signal
  pub workflow_starts : List WorkflowStart
  -- the charges that the provider accepted
  pub charges : List CreatePaymentRequest
  pub eventos : List EventoDocument
  pub drafts : List EventoDraftDocument
  pub participants : List Participant
  pub social_features : List EventoSocialFeatures
  pub rateios : List RateioDocument
  pub fechamentos : List RateioFechamento
  pub finance_summaries : List FinanceSummary
  -- payment_installments and ledger_entries, by the schema that the finance repositories read
  pub finance_installments : List FinanceInstallment
  pub statement_entries : List StatementEntry
  -- payment_accounts, by the schema of the finances and by that of the payments
  pub payment_accounts : List PaymentAccount
  pub payout_accounts : List PayoutAccount
  pub audit_trail : List AuditEntry
  pub contribuicoes : List CofrinhoContribuicao
  -- the payment reminders that were dispatched: (event, participant)
  pub reminders : List (String × String)
  pub calls : ℕ

-- Go's float64 operations, on bit patterns.
pub record FloatOps : Type 0 where
  pub of_int64 : ℤ → Float64
  pub add : Float64 → Float64 → Float64
  pub mul : Float64 → Float64 → Float64
  pub div : Float64 → Float64 → Float64
  pub is_zero : Float64 → Bool
  -- `int64(math.Round(x))`
  pub round_to_int64 : Float64 → ℤ
  -- `math.Round(x)`, `math.Ceil(x)` and `int64(x)`
  pub round : Float64 → Float64
  pub ceil : Float64 → Float64
  pub to_int64 : Float64 → ℤ

-- The outside at the n-th call. A provider reply of `none` is an error.
pub record Env : Type 0 where
  pub fails : ℕ → Bool
  pub reason : ℕ → String
  pub now : ℕ → ℕ
  pub uuid : ℕ → String
  pub object_id : ℕ → String
  -- whether `bson.ObjectIDFromHex(s)` succeeds
  pub is_object_id : String → Bool
  -- `uuid.Parse(s)`, by the canonical text of the identifier
  pub parse_uuid : String → Option String
  -- what a BSON date keeps of a time: its whole milliseconds
  pub bson_date : ℕ → ℕ
  pub floats : FloatOps
  -- `t.Format("2006-01")`, the date of the following day, and `time.Parse("2006-01-02", s)`
  pub month : ℕ → String
  pub next_day : ℕ → String
  -- `t.Format(time.RFC3339)`
  pub rfc3339 : ℕ → String
  -- whether the server refuses the `skip` of a query
  pub refuses_skip : ℤ → Bool
  -- `fmt.Sprintf("%d", n)`
  pub decimal : ℤ → String
  pub parse_date : String → Option ℕ
  -- the provider: customer identifier, charge, charge status, PIX code, boleto line, card token
  pub customer : ℕ → Usuario → String → Option String
  pub charge : ℕ → CreatePaymentRequest → Option ProviderPayment
  pub payment : ℕ → String → Option ProviderPayment
  pub pix_code : ℕ → String → Option ProviderPixQrCode
  pub boleto_field : ℕ → String → Option ProviderIdentificationField
  pub card_token : ℕ → String → CreditCardInput → Option ProviderCardToken
