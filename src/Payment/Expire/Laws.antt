-- ===== src/Payment/Expire/Laws.antt =====
-- What the expiry of a transaction does, branch by branch, and that it leaves final transactions
-- alone.
use backend_go_role_organiza.Prelude.{
  ℕ, suc, String, ◌≡◌, refl, true, false, some, none, Option, Bool-cases, inl, inr, if◌then◌else◌,
}
use backend_go_role_organiza.ApiErr.{is_not_found, transaction_already_terminal, not_found, as_api}
use backend_go_role_organiza.Payment.Domain.{
  PaymentTransaction, is_terminal, mark_cancelled, TransactionStatus,
}
use backend_go_role_organiza.World.{
  World, Env, Result, ok, err, pure, raise, attempt, context, ◌>>=◌, time_now, tick, either,
  or_raise, wrap,
}
use backend_go_role_organiza.World.Within.{Within-pure, Within-raise, Within-if}
use backend_go_role_organiza.Payment.Transactions.{lookup, replace_doc, find_by_id}
use backend_go_role_organiza.Payment.Transactions.Laws.{IsUnique}
use backend_go_role_organiza.Payment.Transactions.Answers.{lookup_self, find_by_id_up, update_up}
use backend_go_role_organiza.Payment.Transactions.Settled.{
  Settles, Settles-frame, Settles-of_same, quiet_rules, Under, Under-if, Under-Within,
  Under-context, Under-bind, Under-update, find_by_id-Loads,
}
use backend_go_role_organiza.Payment.Expire.{expire_loaded, after_find, execute}

module _ (env : Env) where
  expire_loaded-Under :
      (t : PaymentTransaction) → is_terminal t ≡ false → Under t (expire_loaded env t)
  unfolding expire_loaded mark_cancelled
  expire_loaded-Under t live =
      Under-bind t _ _ (search quiet_rules)
        λ now. Under-context t _ _ (Under-update t env _ live refl)

  after_find-Settles :
      (r : Result PaymentTransaction) (w : World)
      → ((t : PaymentTransaction) → r ≡ ok t → lookup t.id w.transactions ≡ some t)
      → Settles w (after_find env r w).1
  unfolding after_find
  after_find-Settles (ok t) w h =
      (Under-if t (is_terminal t) _ _
          (λ _. Under-Within t _ (Within-raise Settles-frame transaction_already_terminal))
          (expire_loaded-Under t)).at
        w (h t refl)
  after_find-Settles (err e) w h =
      (Within-if Settles-frame (is_not_found e) _ _ (Within-pure Settles-frame tt)
          (Within-raise Settles-frame _)).at
        w

  pub execute-Settles :
      (id : String) (w : World) → IsUnique w.transactions → Settles w (execute env id w).1
  unfolding execute ◌>>=◌ attempt either
  execute-Settles id w u =
      let l = find_by_id-Loads env id in
      let (r, w') = find_by_id env id w in
      Settles-frame.rel_trans _ _ _ (Settles-of_same w w' (l.quiet.at w).same)
        (after_find-Settles r w' (λ t e. rw (l.quiet.at w).same (l.stored w t u e)))

-- Whatever the failures of the database, the expiry of any transaction leaves every stored
-- transaction with a final status exactly as it is, and keeps identifiers unique.
pub expire_keeps_final :
    (env : Env) (w : World) (expiring : String) (id : String) (t : PaymentTransaction)
    → IsUnique w.transactions
    → lookup id w.transactions ≡ some t
    → is_terminal t ≡ true
    → let w' = (execute env expiring w).1 in
      IsUnique w'.transactions × (lookup id w'.transactions ≡ some t)
expire_keeps_final env w expiring id t u stored final =
    let s = execute-Settles env expiring w u in (s.unique u, s.frozen id t u stored final)

-- The documented outcome: an unknown transaction is a success without effect, a final one is
-- refused, and any other is cancelled with the reason TIMEOUT.
unfoldable pub expired :
    Env → String → World → Option PaymentTransaction → Result (Unit {0}) × World
expired env id w none = (ok tt, tick w)
expired env id w (some t) = if is_terminal t then (err transaction_already_terminal, tick w) else (
  ok tt,
  record (tick (tick (tick (tick w)))) {
    transactions =
        replace_doc
          (record t {
            status = TransactionStatus.cancelled;
            failure_reason = "TIMEOUT";
            updated_at = env.now (suc (suc w.calls));
          })
          w.transactions;
  },
)

after_find_lem :
    (env : Env) (id : String) (w : World) (o : Option PaymentTransaction)
    → ((n : ℕ) → env.fails n ≡ false)
    → lookup id w.transactions ≡ o
    → let (r, w') = or_raise o (not_found "payment_transaction" id) (tick w) in
      after_find env r w' ≡ expired env id w o
unfolding after_find expire_loaded expired or_raise is_not_found not_found as_api pure raise ◌>>=◌
    time_now either context wrap mark_cancelled
after_find_lem env id w none up e = refl
after_find_lem env id w (some t) up e = elim (Bool-cases (is_terminal t)) [
  | inl final ↦ rw final refl
  | inr live ↦ rw live (
      rw
        (update_up env (mark_cancelled "TIMEOUT" (env.now (suc w.calls)) t) (tick (tick w)) t
          (up (suc (suc (suc w.calls)))) (lookup_self id w.transactions t e))
        refl)
]

-- With a database that answers, the expiry does what its documentation says, branch by branch.
pub expire_lem :
    (env : Env) (id : String) (w : World)
    → ((n : ℕ) → env.fails n ≡ false)
    → execute env id w ≡ expired env id w (lookup id w.transactions)
unfolding execute ◌>>=◌ attempt either
expire_lem env id w up =
    rw (find_by_id_up env id w (up w.calls)) (after_find_lem env id w _ up refl)
