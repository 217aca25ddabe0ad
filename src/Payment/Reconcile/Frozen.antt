-- ===== src/Payment/Reconcile/Frozen.antt =====
-- A reconciliation corrects the pending transactions alone.
use backend_go_role_organiza.Prelude.{
  ℕ, String, ◌≡◌, ◌≢◌, refl, sym, subst, ◌∙◌, true, false, some, List, [], ◌∷◌, join, All, any,
  arith, eq_iff, length,
}
use backend_go_role_organiza.Payment.Domain.{
  PaymentTransaction, ProviderPayment, is_terminal, mark_completed, mark_failed, mark_cancelled,
}
use backend_go_role_organiza.World.{
  World, Env, Action, Result, ok, err, modify, pure, either, raise, ◌>>=◌, context,
}
use backend_go_role_organiza.World.Inversion.{context-eq-ok}
use backend_go_role_organiza.World.Within.{
  IsFrame, Within, within_rules, Within-bind, Within-attempt,
}
use backend_go_role_organiza.Payment.Transactions.{
  lookup, replace_doc, replace, update, has_id, find_pending_older_than,
}
use backend_go_role_organiza.Payment.Transactions.Laws.{
  IsUnique, replace_doc-IsUnique, lookup-replace_doc_ne,
}
use backend_go_role_organiza.Payment.Transactions.Pending.{IsPendingIn, find_pending_lem}
use backend_go_role_organiza.Payment.Transactions.Settled.{
  SameRecords, quiet_rules, Settles, Settles-frame, Settles-of_same,
}
use backend_go_role_organiza.Payment.Reconcile.{
  ReconcileResult, correct, after_update, correct_one, after_get, reconcile_one, reconcile_all,
  threshold, execute,
}

-- Only the transaction `id` is written, and the installments are not.
record OnlyAt (id : String) (w w' : World) : Type 0 where
  unique : IsUnique w.transactions → IsUnique w'.transactions
  others : (j : String) → id ≢ j → lookup j w'.transactions ≡ lookup j w.transactions

OnlyAt-frame : (id : String) → IsFrame (OnlyAt id)
OnlyAt-frame id = record {
  rel_refl = λ w. record { unique = λ u. u; others = λ j n. refl };
  rel_trans = λ a b c h k. record {
    unique = λ u. k.unique (h.unique u);
    others = λ j n. k.others j n ∙ h.others j n;
  };
  rel_tick = λ w. record { unique = λ u. u; others = λ j n. refl };
}

OnlyAt-replace :
    (tx : PaymentTransaction)
    → Within
        (OnlyAt tx.id)
        (modify (λ w. record w { transactions = replace_doc tx w.transactions }))
unfolding modify
OnlyAt-replace tx = record {
  at = λ w. record {
    unique = replace_doc-IsUnique tx w.transactions;
    others = λ j n. lookup-replace_doc_ne j tx w.transactions n;
  };
}

module _ (env : Env) where
  replace-OnlyAt : (tx : PaymentTransaction) → Within (OnlyAt tx.id) (replace env tx)
  unfolding replace
  replace-OnlyAt tx = search (within_rules, OnlyAt-frame, OnlyAt-replace) depth 9

  update-OnlyAt : (tx : PaymentTransaction) → Within (OnlyAt tx.id) (update env tx)
  unfolding update
  update-OnlyAt tx =
      Within-bind (OnlyAt-frame tx.id) _ _ (search (within_rules, OnlyAt-frame))
        λ at. replace-OnlyAt (record tx { updated_at = at })

  after_update-OnlyAt :
      (id : String) (r : ReconcileResult) (a : Result (Unit {0}))
      → Within (OnlyAt id) (after_update env r a)
  unfolding after_update
  after_update-OnlyAt id r (ok _) = search (within_rules, OnlyAt-frame)
  after_update-OnlyAt id r (err _) = search (within_rules, OnlyAt-frame)

  pub correct-id : (s : String) (now : ℕ) (tx : PaymentTransaction) → (correct s now tx).id ≡ tx.id
  unfolding correct mark_completed mark_cancelled mark_failed
  correct-id s now tx = ground arith

  correct_one-OnlyAt :
      (tx : PaymentTransaction) (r : ReconcileResult) (s : String)
      → Within (OnlyAt tx.id) (correct_one env tx r s)
  unfolding correct_one
  correct_one-OnlyAt tx r s =
      Within-bind (OnlyAt-frame tx.id) _ _ (search (within_rules, OnlyAt-frame)) λ now.
        Within-bind (OnlyAt-frame tx.id) _ _
          (Within-attempt (OnlyAt-frame tx.id) _ (
            subst (λ i. Within (OnlyAt i) (update env (correct s now tx))) (correct-id s now tx)
              (update-OnlyAt (correct s now tx))))
          λ a. after_update-OnlyAt tx.id r a

  after_get-OnlyAt :
      (tx : PaymentTransaction) (r : ReconcileResult) (a : Result ProviderPayment)
      → Within (OnlyAt tx.id) (after_get env tx r a)
  unfolding after_get
  after_get-OnlyAt tx r (ok p) = search (within_rules, OnlyAt-frame, correct_one-OnlyAt)
  after_get-OnlyAt tx r (err _) = search (within_rules, OnlyAt-frame)

  reconcile_one-OnlyAt :
      (tx : PaymentTransaction) (r : ReconcileResult)
      → Within (OnlyAt tx.id) (reconcile_one env tx r)
  unfolding reconcile_one
  reconcile_one-OnlyAt tx r = search (within_rules, OnlyAt-frame, after_get-OnlyAt)

  Settles-OnlyAt :
      (tx : PaymentTransaction) (w w' : World)
      → IsPendingIn w.transactions tx
      → OnlyAt tx.id w w'
      → Settles w w'
  Settles-OnlyAt tx w w' pending o = record {
    unique = o.unique;
    frozen = λ j t u e f.
        o.others j (λ same. absurd (
          ground (
            arith,
            f,
            pending.1,
            subst (λ i. lookup i w.transactions ≡ some tx) same pending.0,
            e,
          )))
        ∙ e;
  }

  still_pending :
      (tx : PaymentTransaction) (txs : List PaymentTransaction) (w w' : World)
      → OnlyAt tx.id w w'
      → any (has_id tx.id) txs ≡ false
      → All (IsPendingIn w.transactions) txs
      → All (IsPendingIn w'.transactions) txs
  still_pending tx [] w w' o n h = tt
  still_pending tx (t ∷ txs) w w' o n h = (
    (o.others t.id (λ same. ground (arith, (eq_iff t.id tx.id).1 (sym same))) ∙ h.0.0, h.0.1),
    still_pending tx txs w w' o (ground arith) h.1,
  )

  then-Settles :
      (a : Result ReconcileResult) (w : World) (f : ReconcileResult → Action ReconcileResult)
      → ((r : ReconcileResult) → Settles w (f r w).1)
      → Settles w (either a f raise w).1
  unfolding either raise
  then-Settles (ok r) w f h = h r
  then-Settles (err e) w f h = Settles-frame.rel_refl w

  reconcile_all-Settles :
      (txs : List PaymentTransaction) (r : ReconcileResult) (w : World)
      → IsUnique w.transactions
      → IsUnique txs
      → All (IsPendingIn w.transactions) txs
      → Settles w (reconcile_all env txs r w).1
  unfolding reconcile_all pure ◌>>=◌
  reconcile_all-Settles [] r w u d h = Settles-frame.rel_refl w
  reconcile_all-Settles (tx ∷ txs) r w u d h =
      let (a, w') = reconcile_one env tx r w in
      let o = (reconcile_one-OnlyAt tx r).at w in
      Settles-frame.rel_trans _ _ _ (Settles-OnlyAt tx w w' h.0 o) (
        then-Settles a w' (reconcile_all env txs) (λ r'.
          reconcile_all-Settles txs r' w' (o.unique u) d.1 (still_pending tx txs w w' o d.0 h.1)))

  threshold-quiet : (from : ℕ) → Within SameRecords (threshold env from)
  unfolding threshold
  threshold-quiet from = search quiet_rules

  find_pending-quiet :
      (s : String) (since : ℕ) → Within SameRecords (context s (find_pending_older_than env since))
  unfolding find_pending_older_than
  find_pending-quiet s since = search quiet_rules

  after_found-Settles :
      (s : String) (since : ℕ) (w : World)
      → IsUnique w.transactions
      → Settles w
          ((context s (find_pending_older_than env since) >>= λ txs.
              reconcile_all env txs (record { checked = length txs; updated = 0; failed = 0 }))
            w).1
  unfolding ◌>>=◌ either raise
  after_found-Settles s since w u =
      let (a, w') = context s (find_pending_older_than env since) w in
      let q = (find_pending-quiet s since).at w in
      Settles-frame.rel_trans _ _ _ (Settles-of_same w w' q.same) (go a w' q.same refl)
    where
      go :
          (a : Result (List PaymentTransaction)) (w' : World)
          → w'.transactions ≡ w.transactions
          → (context s (find_pending_older_than env since) w).0 ≡ a
          → Settles w'
              (either a
                (λ txs.
                  reconcile_all env txs (record { checked = length txs; updated = 0; failed = 0 }))
                raise
                w').1
      go (err e) w' same h = Settles-frame.rel_refl w'
      go (ok txs) w' same h =
          let f = find_pending_lem env since w txs u (context-eq-ok s _ w txs h) in
          reconcile_all-Settles txs _ w' (rw same u) f.0 (rw same f.1)

  execute-Settles :
      (from : ℕ) (w : World) → IsUnique w.transactions → Settles w (execute env from w).1
  unfolding execute ◌>>=◌ either raise
  execute-Settles from w u =
      let (a, w') = threshold env from w in
      let q = (threshold-quiet from).at w in
      Settles-frame.rel_trans _ _ _ (Settles-of_same w w' q.same) (go a w' (rw q.same u))
    where
      go :
          (a : Result ℕ) (w' : World)
          → IsUnique w'.transactions
          → Settles w'
              (either a
                (λ since.
                  context
                    (join ("reconcile psp: find pending older than " ∷ env.rfc3339 since ∷ []))
                    (find_pending_older_than env since)
                  >>= λ txs.
                      reconcile_all env txs
                        (record { checked = length txs; updated = 0; failed = 0 }))
                raise
                w').1
      go (err e) w' u' = Settles-frame.rel_refl w'
      go (ok since) w' u' = after_found-Settles _ since w' u'

-- With no other writer in between, a reconciliation leaves every stored transaction with a final
-- status exactly as it is, whatever the provider answers and whichever call fails, and identifiers
-- stay unique.
pub reconcile_keeps_final :
    (env : Env) (from : ℕ) (w : World) (id : String) (t : PaymentTransaction)
    → IsUnique w.transactions
    → lookup id w.transactions ≡ some t
    → is_terminal t ≡ true
    → let w' = (execute env from w).1 in
      IsUnique w'.transactions × (lookup id w'.transactions ≡ some t)
reconcile_keeps_final env from w id t u stored final =
    let s = execute-Settles env from w u in (s.unique u, s.frozen id t u stored final)
