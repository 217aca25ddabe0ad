-- ===== src/Payment/Transactions/Pending.antt =====
-- What `FindPendingOlderThan` returns: stored transactions that are not final, each one once.
use backend_go_role_organiza.Prelude.{
  ℕ, String, ◌≡◌, refl, sym, subst, Bool, true, false, ◌&&◌, ◌||◌, some, List, [], ◌∷◌, All, any,
  select, insert_sorted, sort_by, arith, Bool-cases, inl, inr, eq_iff, eq_refl, ltb,
}
use backend_go_role_organiza.Payment.Domain.{
  PaymentTransaction, TransactionStatus, is_terminal, is_final,
}
use backend_go_role_organiza.World.{World, Env, ok, ◌>>=◌, driver, gets, raise_if}
use backend_go_role_organiza.Payment.Transactions.{has_id, lookup, is_live, find_pending_older_than}
use backend_go_role_organiza.Payment.Transactions.Laws.{IsUnique, any_of_lookup}

-- `t` is stored in `ts`, and its status is not final.
abbrev pub IsPendingIn : List PaymentTransaction → PaymentTransaction → Type 0
IsPendingIn ts t = (lookup t.id ts ≡ some t) × (is_terminal t ≡ false)

module _ (P : PaymentTransaction → Type 0)
    (before : PaymentTransaction → PaymentTransaction → Bool) where
  All-insert_sorted :
      (t : PaymentTransaction) (ts : List PaymentTransaction)
      → P t
      → All P ts
      → All P (insert_sorted before t ts)
  unfolding insert_sorted
  All-insert_sorted t [] h k = (h, tt)
  All-insert_sorted t (u ∷ ts) h k = elim (Bool-cases (before u t)) [
    | inl first ↦ rw first (k.0, All-insert_sorted t ts h k.1)
    | inr last ↦ rw last (h, k)
  ]

  All-sort_by : (ts : List PaymentTransaction) → All P ts → All P (sort_by before ts)
  unfolding sort_by
  All-sort_by [] h = tt
  All-sort_by (t ∷ ts) h = All-insert_sorted t (sort_by before ts) h.0 (All-sort_by ts h.1)

module _ (before : PaymentTransaction → PaymentTransaction → Bool) where
  any-insert_sorted :
      (k : String) (t : PaymentTransaction) (ts : List PaymentTransaction)
      → any (has_id k) (insert_sorted before t ts) ≡ has_id k t || any (has_id k) ts
  unfolding insert_sorted
  any-insert_sorted k t [] = refl
  any-insert_sorted k t (u ∷ ts) = ground (arith, any-insert_sorted k t ts)

  insert_sorted-IsUnique :
      (t : PaymentTransaction) (ts : List PaymentTransaction)
      → any (has_id t.id) ts ≡ false
      → IsUnique ts
      → IsUnique (insert_sorted before t ts)
  unfolding insert_sorted
  insert_sorted-IsUnique t [] n h = ground arith
  insert_sorted-IsUnique t (u ∷ ts) n h = ground (
    arith,
    insert_sorted-IsUnique t ts,
    any-insert_sorted u.id t ts,
    eq_iff u.id t.id,
    eq_iff t.id u.id,
  )

  any-sort_by :
      (k : String) (ts : List PaymentTransaction)
      → any (has_id k) (sort_by before ts) ≡ any (has_id k) ts
  unfolding sort_by
  any-sort_by k [] = refl
  any-sort_by k (t ∷ ts) =
      ground (arith, any-insert_sorted k t (sort_by before ts), any-sort_by k ts)

  sort_by-IsUnique : (ts : List PaymentTransaction) → IsUnique ts → IsUnique (sort_by before ts)
  unfolding sort_by
  sort_by-IsUnique [] h = tt
  sort_by-IsUnique (t ∷ ts) h =
      insert_sorted-IsUnique t (sort_by before ts) (ground (arith, any-sort_by t.id ts))
        (sort_by-IsUnique ts (ground arith))

module _ (p : PaymentTransaction → Bool) where
  any-select :
      (k : String) (ts : List PaymentTransaction)
      → any (has_id k) ts ≡ false
      → any (has_id k) (select p ts) ≡ false
  any-select k [] h = refl
  any-select k (t ∷ ts) h = ground (arith, any-select k ts)

  select-IsUnique : (ts : List PaymentTransaction) → IsUnique ts → IsUnique (select p ts)
  select-IsUnique [] h = tt
  select-IsUnique (t ∷ ts) h = ground (arith, any-select t.id ts, select-IsUnique ts)

  lookup_tail :
      (u t : PaymentTransaction) (us : List PaymentTransaction)
      → any (has_id u.id) us ≡ false
      → lookup t.id us ≡ some t
      → lookup t.id (u ∷ us) ≡ some t
  lookup_tail u t us n e = ground (arith, any_of_lookup u.id us t, eq_iff u.id t.id)

  All-select :
      (P : PaymentTransaction → Type 0) (ts : List PaymentTransaction)
      → IsUnique ts
      → ((t : PaymentTransaction) → lookup t.id ts ≡ some t → p t ≡ true → P t)
      → All P (select p ts)
  All-select P [] h f = tt
  All-select P (u ∷ us) h f =
      let rest = All-select P us h.1 (λ t e. f t (lookup_tail u t us h.0 e)) in
      elim (Bool-cases (p u)) [
        | inl hit ↦ rw hit (f u (ground (arith, eq_refl u.id)) hit, rest)
        | inr miss ↦ rw miss rest
      ]

live_not_final : (s : TransactionStatus) → is_live s ≡ true → is_final s ≡ false
live_not_final TransactionStatus.pending e = refl
live_not_final TransactionStatus.processing e = refl
live_not_final TransactionStatus.completed e = cc
live_not_final TransactionStatus.failed e = cc
live_not_final TransactionStatus.cancelled e = cc

abbrev pub pending_before : ℕ → List PaymentTransaction → List PaymentTransaction
pending_before since ts =
    sort_by (λ t u. ltb t.created_at u.created_at)
      (select (λ t. is_live t.status && ltb t.created_at since) ts)

pending_of_found :
    (env : Env) (since : ℕ) (w : World) (txs : List PaymentTransaction)
    → (find_pending_older_than env since w).0 ≡ ok txs
    → txs ≡ pending_before since w.transactions
unfolding find_pending_older_than ◌>>=◌ driver gets raise_if
pending_of_found env since w txs e = elim (Bool-cases (env.fails w.calls)) [
  | inl down ↦ absurd (ground (arith, rw down at e))
  | inr up ↦ ground (arith, rw up at e)
]

pending_before-lem :
    (since : ℕ) (ts : List PaymentTransaction)
    → IsUnique ts
    → IsUnique (pending_before since ts) × All (IsPendingIn ts) (pending_before since ts)
pending_before-lem since ts u = (
  sort_by-IsUnique _ _ (select-IsUnique _ ts u),
  All-sort_by (IsPendingIn ts) _ _ (
      All-select _ (IsPendingIn ts) ts u
        (λ t e h. (e, live_not_final t.status (ground (arith, h))))),
)

pub find_pending_lem :
    (env : Env) (since : ℕ) (w : World) (txs : List PaymentTransaction)
    → IsUnique w.transactions
    → (find_pending_older_than env since w).0 ≡ ok txs
    → IsUnique txs × All (IsPendingIn w.transactions) txs
find_pending_lem env since w txs u e =
    subst (λ xs. IsUnique xs × All (IsPendingIn w.transactions) xs)
      (sym (pending_of_found env since w txs e)) (pending_before-lem since w.transactions u)
