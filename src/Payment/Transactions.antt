-- ===== src/Payment/Transactions.antt =====
-- internal/adapter/mongodb/payment_transaction.go: the collection payment_transactions, with its
-- unique indexes on `_id` and, where set, `idempotencyKey` (migrations/v084).
pub mod Laws
pub mod Answers
pub mod Pending
pub mod Settled
use backend_go_role_organiza.Prelude.{
  ℕ, String, ◌==◌, Bool, true, false, ◌&&◌, ◌||◌, Option, none, some, List, [], ◌∷◌, ◌++◌, find,
  any, select, update_first, sort_by, is_set, is_some, member, join, ltb, if◌then◌else◌,
}
use backend_go_role_organiza.ApiErr.{Error, not_found, internal}
use backend_go_role_organiza.Payment.Domain.{PaymentTransaction, TransactionStatus}
use backend_go_role_organiza.World.{
  World, Env, Action, Result, pure, raise, gets, attempt, context, or_raise, ◌>>=◌, ◌>>◌, either,
  modify, raise_if, time_now, new_uuid, driver,
}

abbrev pub has_id : String → PaymentTransaction → Bool
has_id id t = t.id == id

abbrev pub lookup : String → List PaymentTransaction → Option PaymentTransaction
lookup id = find (has_id id)

abbrev has_key : String → PaymentTransaction → Bool
has_key key t = t.idempotency_key == key

-- `ReplaceOne` by `_id`
abbrev pub replace_doc : PaymentTransaction → List PaymentTransaction → List PaymentTransaction
replace_doc t = update_first (has_id t.id) (λ _. t)

-- Whether an insert of `t` violates a unique index.
unfoldable pub clashes : PaymentTransaction → List PaymentTransaction → Bool
clashes t ts =
    any (has_id t.id) ts || (is_set t.idempotency_key && any (has_key t.idempotency_key) ts)

-- PENDING or PROCESSING
abbrev pub is_live : TransactionStatus → Bool
is_live TransactionStatus.pending = true
is_live TransactionStatus.processing = true
is_live _ = false

pub data Insert : Type 0 where
  inserted duplicate : Insert
  failed : Error → Insert

unfoldable pub insert_doc : PaymentTransaction → Bool → Action Insert
insert_doc t true = pure duplicate
insert_doc t false = do
  modify (λ w. record w { transactions = w.transactions ++ t ∷ [] })
  pure inserted

module _ (env : Env) where
  -- A failure of the driver, as the 500 error that reports it.
  unfoldable pub call : String → Action (Unit {0})
  call what = driver env (λ reason. internal (join (what ∷ ": " ∷ reason ∷ [])))

  unfoldable pub find_by_id : String → Action PaymentTransaction
  unfolding call
  find_by_id id = do
    call "find payment transaction by id"
    doc ← gets (λ w. lookup id w.transactions)
    or_raise doc (not_found "payment_transaction" id)

  unfoldable pub find_by_idempotency_key : String → Action PaymentTransaction
  unfolding call
  find_by_idempotency_key key = do
    call "find payment transaction by idempotency key"
    doc ← gets (λ w. find (has_key key) w.transactions)
    or_raise doc (not_found "payment_transaction" key)

  -- The second lookup of `FindByProviderTransactionID`, inside `installmentIds`.
  unfoldable pub find_by_installment_ref : String → Action PaymentTransaction
  unfolding call
  find_by_installment_ref ref = do
    call "find payment transaction by installment ref"
    doc ← gets (λ w. find (λ t. member ref t.installment_ids) w.transactions)
    or_raise doc (not_found "payment_transaction" ref)

  unfoldable pub found_or_ref : String → Option PaymentTransaction → Action PaymentTransaction
  unfolding find_by_installment_ref
  found_or_ref ref none = find_by_installment_ref ref
  found_or_ref ref (some t) = pure t

  unfoldable pub find_by_provider_transaction_id : String → Action PaymentTransaction
  unfolding call found_or_ref
  find_by_provider_transaction_id provider_id = do
    call "find payment transaction by provider id"
    doc ← gets (λ w. find (λ t. t.provider_transaction_id == provider_id) w.transactions)
    found_or_ref provider_id doc

  unfoldable pub find_pending_older_than : ℕ → Action (List PaymentTransaction)
  unfolding call
  find_pending_older_than threshold = do
    call "find pending transactions"
    gets (λ w.
        sort_by (λ t u. ltb t.created_at u.created_at)
          (select (λ t. is_live t.status && ltb t.created_at threshold) w.transactions))

  unfoldable pub insert_one : PaymentTransaction → Action Insert
  unfolding insert_doc
  insert_one t = do
    answer ←
        attempt
          (driver env (λ reason. internal (join ("save payment transaction: " ∷ reason ∷ []))))
    either answer (λ _. do ts ← gets (λ w. w.transactions); insert_doc t (clashes t ts))
        (λ e. pure (failed e))

  unfoldable pub after_insert : PaymentTransaction → Insert → Action PaymentTransaction
  unfolding find_by_idempotency_key
  after_insert t inserted = pure t
  after_insert t duplicate =
      if is_set t.idempotency_key
      then context "save payment transaction (idempotency lookup)"
          (find_by_idempotency_key t.idempotency_key)
      else raise (internal "save payment transaction: duplicate key")
  after_insert t (failed e) = raise e

  unfoldable pub assign_id : PaymentTransaction → Action PaymentTransaction
  assign_id t = if is_set t.id then pure t else (do id ← new_uuid env; pure (record t { id = id }))

  -- Returns the transaction as the caller's pointer holds it afterwards: after a duplicate key it is
  -- the stored transaction with that key.
  unfoldable pub save : PaymentTransaction → Action PaymentTransaction
  unfolding assign_id insert_one after_insert
  save tx = do t ← assign_id tx; outcome ← insert_one t; after_insert t outcome

  -- The first line of `Update`, which stays in the caller's pointer whether or not the call fails.
  unfoldable pub touch : PaymentTransaction → Action PaymentTransaction
  touch tx = do at ← time_now env; pure (record tx { updated_at = at })

  unfoldable pub replace : PaymentTransaction → Action (Unit {0})
  unfolding call
  replace tx = do
    call "update payment transaction"
    matched ← gets (λ w. lookup tx.id w.transactions)
    modify (λ w. record w { transactions = replace_doc tx w.transactions })
    raise_if (if is_some matched then false else true) (not_found "payment_transaction" tx.id)

  unfoldable pub update : PaymentTransaction → Action (Unit {0})
  unfolding replace
  update tx = do at ← time_now env; replace (record tx { updated_at = at })
