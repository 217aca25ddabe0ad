-- ===== src/Payment/Workflows/Outcomes.antt =====
-- The states that PaymentExpirationWorkflow ends in, and the transactions it leaves alone.
use backend_go_role_organiza.Prelude.{
  ℕ, suc, ◌*◌, String, ◌≡◌, refl, true, false, Option, none, some, leb, Bool-cases, inl, inr,
  if◌then◌else◌,
}
use backend_go_role_organiza.Payment.Domain.{PaymentTransaction, is_terminal}
use backend_go_role_organiza.World.{
  World, Env, Action, Result, ok, err, pure, raise, attempt, ◌>>=◌, either,
}
use backend_go_role_organiza.Payment.Transactions.{lookup}
use backend_go_role_organiza.Payment.Transactions.Laws.{IsUnique}
use backend_go_role_organiza.Payment.Transactions.Settled.{Settles, Settles-frame}
use backend_go_role_organiza.Payment.Expire.Laws.{expired, expire_lem, execute-Settles}
use backend_go_role_organiza.Payment.Expire
use backend_go_role_organiza.Payment.Workflows.{
  Outcome, done, retryable, non_retryable, WorkflowState, completed, failed, skipped, paid, Race,
  timer_fires, signal_arrives, with_retries, expire_transaction, payment_expiration_workflow,
  is_already_terminal, after_expire, state_of, run_race,
}

-- The state by the stored transaction, once the timer has fired.
abbrev pub state_by_stored : Option PaymentTransaction → WorkflowState
state_by_stored none = completed
state_by_stored (some t) = if is_terminal t then failed else completed

-- The end of the workflow with a database that answers.
unfoldable pub expired_by_workflow :
    Env → ℕ → Race → ℕ → String → World → Result WorkflowState × World
expired_by_workflow env now race expires_at id w =
    if leb (expires_at * 1000000) now then (ok skipped, w) else elim race [
      | signal_arrives ↦ (ok paid, w)
      | timer_fires ↦
          let o = lookup id w.transactions in (ok (state_by_stored o), (expired env id w o).1)
    ]

module _ (env : Env) (id : String) where
  retried_once :
      (w : World) (o : Option PaymentTransaction)
      → Expire.execute env id w ≡ expired env id w o
      → (with_retries 2 (expire_transaction env id) >>= λ outcome. pure (state_of env outcome)) w
        ≡ (ok (state_by_stored o), (expired env id w o).1)
  unfolding with_retries expire_transaction after_expire state_of expired is_already_terminal ◌>>=◌
      attempt pure either
  retried_once w none e = rw e refl
  retried_once w (some t) e = elim (Bool-cases (is_terminal t)) [
    | inl final ↦ rw e (rw final refl)
    | inr live ↦ rw e (rw live refl)
  ]

-- With a database that answers, the workflow ends as its documentation says: SKIPPED without effect
-- when started after the expiry, PAID without effect when the signal comes first, and otherwise
-- COMPLETED with the transaction cancelled as by the expiry, unless the transaction was already
-- final: then it ends in FAILED, and its transaction stays as it is.
pub expiration_workflow_lem :
    (env : Env) (now : ℕ) (race : Race) (expires_at : ℕ) (id : String) (w : World)
    → ((n : ℕ) → env.fails n ≡ false)
    → payment_expiration_workflow env now race expires_at id w
      ≡ expired_by_workflow env now race expires_at id w
unfolding payment_expiration_workflow expired_by_workflow run_race pure
expiration_workflow_lem env now race expires_at id w up =
    elim (Bool-cases (leb (expires_at * 1000000) now)) [
      | inl late ↦ rw late refl
      | inr early ↦ rw early (by_race race)
    ]
  where
    by_race :
        (race : Race)
        → run_race env race id w ≡ elim race [
          | signal_arrives ↦ (ok paid, w)
          | timer_fires ↦
              let o = lookup id w.transactions in (ok (state_by_stored o), (expired env id w o).1)
        ]
    by_race signal_arrives = refl
    by_race timer_fires = retried_once env id w _ (expire_lem env id w up)

module _ (env : Env) where
  -- From worlds with unique identifiers `m` leads to worlds that it settles.
  Settling : {A : Type 0} → Action A → Type 0
  Settling m = (w : World) → IsUnique w.transactions → Settles w (m w).1

  module _ {A B : Type 0} where
    bind-Settling :
        (m : Action A) (f : A → Action B)
        → Settling m
        → ((a : A) → Settling (f a))
        → Settling (m >>= f)
    unfolding ◌>>=◌ Settling either raise
    bind-Settling m f hm hf w u =
        let s = hm w u in Settles-frame.rel_trans _ _ _ s (go (m w).0 (m w).1 (s.unique u))
      where
        go :
            (r : Result A) (w' : World)
            → IsUnique w'.transactions
            → Settles w' (either r f raise w').1
        go (ok a) w' u' = hf a w' u'
        go (err e) w' u' = Settles-frame.rel_refl w'

  pure-Settling : {A : Type 0} (a : A) → Settling (pure a)
  unfolding Settling pure
  pure-Settling a w u = Settles-frame.rel_refl w

  again-Settling :
      (m : Action Outcome) (outcome : Outcome)
      → Settling m
      → Settling (elim outcome [
        | done ↦ pure done
        | retryable e ↦ m
        | non_retryable e ↦ pure (non_retryable e)
      ])
  again-Settling m done h = pure-Settling done
  again-Settling m (retryable e) h = h
  again-Settling m (non_retryable e) h = pure-Settling (non_retryable e)

  with_retries-Settling : (n : ℕ) (m : Action Outcome) → Settling m → Settling (with_retries n m)
  unfolding with_retries
  with_retries-Settling ℕ.zero m h = h
  with_retries-Settling (suc n) m h =
      bind-Settling m _ h λ o. again-Settling (with_retries n m) o (with_retries-Settling n m h)

  expire_transaction-Settling : (id : String) → Settling (expire_transaction env id)
  unfolding expire_transaction Settling ◌>>=◌ attempt pure either
  expire_transaction-Settling id w u = execute-Settles env id w u

  workflow-Settling :
      (now : ℕ) (race : Race) (expires_at : ℕ) (id : String)
      → Settling (payment_expiration_workflow env now race expires_at id)
  unfolding payment_expiration_workflow run_race
  workflow-Settling now race expires_at id = elim (Bool-cases (leb (expires_at * 1000000) now)) [
    | inl late ↦ rw late (pure-Settling skipped)
    | inr early ↦ rw early (by_race race)
  ]
    where
      by_race : (race : Race) → Settling (run_race env race id)
      by_race signal_arrives = pure-Settling paid
      by_race timer_fires =
          bind-Settling _ _ (with_retries-Settling 2 _ (expire_transaction-Settling id))
            λ o. pure-Settling (state_of env o)

-- Whatever comes first and whichever calls fail, through all its retries, the workflow leaves every
-- stored transaction with a final status exactly as it is.
pub expiration_workflow_keeps_final :
    (env : Env) (now : ℕ) (race : Race) (expires_at : ℕ) (expiring : String) (w : World)
    (id : String) (t : PaymentTransaction)
    → IsUnique w.transactions
    → lookup id w.transactions ≡ some t
    → is_terminal t ≡ true
    → lookup id (payment_expiration_workflow env now race expires_at expiring w).1.transactions
      ≡ some t
unfolding Settling
expiration_workflow_keeps_final env now race expires_at expiring w id t u stored final =
    (workflow-Settling env now race expires_at expiring w u).frozen id t u stored final
