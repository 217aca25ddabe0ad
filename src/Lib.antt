-- ===== src/Lib.antt =====
-- The Rolê Organizado backend: its payments, its events with their drafts, the social features
-- of an event, the splitting of its costs, its contributions and its finances.
--
-- The parts. A payment (internal/usecase/payment/process_payment.go, or process_batch_payment.go
-- for several installments at once) is recorded as a pending transaction, charged at the
-- provider and updated with its answer. From then on three writers may finish it: the webhook
-- (handle_payment_callback.go), the daily reconciliation (reconcile_psp.go) and the expiry
-- (expire_transaction.go), the last run by a Temporal workflow that a webhook signals. A
-- completed payment marks its installments paid, allocates them to liabilities
-- (installment_allocation.go) and is confirmed in the subledger (subledger_dual_write.go). All
-- of them share the database, and none locks it. An event (internal/usecase/event) is published
-- from a draft that is edited step by step, with a check of stale edits. Around it stand one
-- document of social features (usecase/social), which its organiser and its confirmed
-- participants may change, the splits of its costs (usecase/rateio), which are closed with a
-- numbered snapshot, and contributions (usecase/cofrinho). The finances (usecase/finance) read
-- the splits, the participants and the installments and keep a summary, and hold the users'
-- accounts.
--
-- The files.
-- - Prelude: Boolean tests, searches in lists, texts, the integers over the native numbers, and
--   int64 arithmetic with its wrap-around.
-- - ApiErr: pkg/apierr/apierr.go; an error is a typed one, a wrapped one or a text.
-- - World: the shared collections as lists of documents, the calls that leave the program, and
--   the action type `World → Result A × World`. What was written before a failure stays written.
--   Within has the rules by which a relation between the world before and after is proved of an
--   action, Inversion and Leaves what holds where a chain of calls returns.
-- - Payment/Domain: internal/domain/payment, and the inputs and provider records of
--   internal/port.
-- - Payment/Transactions, Installments, Webhooks: the repositories payment_transaction.go,
--   payment_installment.go and processed_webhook_event.go of internal/adapter/mongodb, with
--   their unique indexes. Transactions/Settled has the relation by which final transactions are
--   frozen, Installments/Cancelled what a cancellation leaves.
-- - Payment/Subledger, Fees, Allocation: subledger_dual_write.go, fee_policy_service.go with
--   internal/domain/payment/fee_policy.go, and installment_allocation.go of
--   internal/usecase/payment.
-- - Payment/Callback: handle_payment_callback.go; Status classifies, Handlers are the three
--   actions, `execute` composes them. Outcome, Frozen and Redelivery have its properties.
-- - Payment/Reconcile, Expire: reconcile_psp.go and expire_transaction.go. Reconcile/Agreement
--   compares the reconciliation with the webhook, Reconcile/Effects has what it writes over.
-- - Payment/Process: process_payment.go; Customer, Cards and Charge are its parts, Once and
--   Entry have its properties.
-- - Payment/Batch: process_batch_payment.go; Checks has what is refused before any write, Charge
--   the steps from the fee snapshot on, Owned its property. The steps that repeat
--   process_payment.go word for word are that file's definitions, at the batch as a single
--   payment.
-- - Payment/Access: get_transaction.go, get_installment.go, cancel_participant_installments.go
--   and manage_saved_cards.go; Organizer has the property of the cancellation.
-- - Payment/Accounts: manage_payment_accounts.go with payment_account.go of
--   internal/adapter/mongodb.
-- - Payment/Workflows: payment_expiration.go and payment_confirmation.go of
--   internal/adapter/temporal/workflow, with the activities of
--   internal/adapter/temporal/activity/payment_activities.go.
-- - Event: internal/usecase/event with internal/domain/event; Drafts and Eventos are the
--   repositories evento_draft.go and evento.go of internal/adapter/mongodb, UseCases/Draft and
--   UseCases/Published the use cases. ReadBack has what a saved draft gives back, Newer and
--   Stale what a stale update does, Publishing what reaches the event.
-- - Social: internal/usecase/social with internal/domain/social; Auth and Repository are
--   internal/adapter/mongodb/social.go, with the filter of each update as its condition.
--   Requests are the operations as the handlers pass them, Limits, Roles and Claims the
--   properties; Limits/Writes and Claims/Writes go through the writes of the repository.
-- - Rateio: internal/usecase/rateio with its domain and internal/adapter/mongodb/rateio.go.
--   Loaded, Frozen and Closing are about closed splits, ReadBack about what a document keeps of
--   a split.
-- - Cofrinho: internal/usecase/cofrinho with its domain and repository; Confirmed has its
--   property.
-- - Finance: internal/usecase/finance/finance.go with internal/domain/finance (Rules has its
--   arithmetic and the check of PIX keys) and the repositories finance.go and participant.go of
--   internal/adapter/mongodb. Default, Reminders and Pages have its properties.
-- - Tests, in each of these: the theorems at concrete inputs.
--
-- Correspondence. A Go method is a definition of the same name in small letters with
-- underscores; a method whose branches are long is cut at its early returns, and the definition
-- named after the method composes the parts. A transaction that a call mutates through a pointer
-- is returned. `time.Now()`, `uuid.New()`, each call of the database driver and each request to
-- the provider takes one number from the count `calls` of the world, at which the parameter
-- `Env` says what comes back: so a theorem for all `Env` is one for every pattern of failures
-- and replies. `Env` also says which texts are object identifiers (`is_object_id`), whether the
-- server refuses a query's skip (`refuses_skip`) and how a number is printed (`decimal`). Where
-- the queries of the splits, the participants, the installments and the summaries turn an
-- identifier into a UUID, `uuid_binary` does: by the parameter `parse_uuid`, with a random one
-- where the text is none. In the social features, the registration of participants, the checks
-- of access and the accounts, an identifier is compared by its text, so those parts are about
-- identifiers that are UUIDs or object identifiers. A stored draft, event or split has the times
-- that a BSON date keeps (`bson_date`, a parameter that the examples instantiate with whole
-- milliseconds); the other documents keep their times as given; the finances' view of the
-- collections payment_installments, ledger_entries and payment_accounts, whose schema differs
-- from that of the payments, is kept in lists of its own.
--
-- Bounds. The loops of the program run over lists that are loaded before, and are structural
-- recursions; the retries of a workflow are bounded by its policy. No fuel is used. Cents are
-- int64 with wrap-around; float64 values are bit patterns and their operations a parameter
-- without laws.
--
-- Not modelled: logging, tracing and cancellation of contexts; the decoding of documents; the
-- raw body of a webhook, which is never read; the order in which the database returns documents
-- that its query does not sort. The paginated listings of events, transactions and installments,
-- the hold of a balance, authentication, configuration, gift lists, notification templates and
-- the HTTP layer are outside this development.
mod Prelude
pub mod ApiErr
mod World
pub mod Payment
pub mod Event
pub mod Social
pub mod Finance
pub mod Rateio
pub mod Cofrinho
