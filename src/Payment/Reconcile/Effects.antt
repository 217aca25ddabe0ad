-- ===== src/Payment/Reconcile/Effects.antt =====
-- What a reconciliation writes over.
use backend_go_role_organiza.Prelude.{suc, String, ◌≡◌, refl, ap, ◌∙◌, sym, subst, false, some}
use backend_go_role_organiza.Payment.Domain.{PaymentTransaction}
use backend_go_role_organiza.World.{
  World, Env, Result, ok, err, tick, ◌>>=◌, time_now, attempt, either, pure,
}
use backend_go_role_organiza.Payment.Transactions.{lookup, update}
use backend_go_role_organiza.Payment.Transactions.Laws.{lookup-replace_doc_self}
use backend_go_role_organiza.Payment.Transactions.Answers.{update_up}
use backend_go_role_organiza.Payment.Reconcile.{ReconcileResult, correct, after_update, correct_one}
use backend_go_role_organiza.Payment.Reconcile.Frozen.{correct-id}

after_update_world :
    (env : Env) (r : ReconcileResult) (a : Result (Unit {0})) (w : World)
    → (after_update env r a w).1 ≡ w
unfolding after_update pure
after_update_world env r (ok _) w = refl
after_update_world env r (err _) w = refl

update_overwrites :
    (env : Env) (tx stored : PaymentTransaction) (w : World)
    → lookup tx.id w.transactions ≡ some stored
    → env.fails (suc w.calls) ≡ false
    → lookup tx.id (update env tx w).1.transactions
      ≡ some (record tx { updated_at = env.now w.calls })
update_overwrites env tx stored w found up = rw (update_up env tx w stored up found) (
    lookup-replace_doc_self (record tx { updated_at = env.now w.calls }) w.transactions stored
      found)

correct_one_world :
    (env : Env) (loaded : PaymentTransaction) (r : ReconcileResult) (s : String) (w : World)
    → (correct_one env loaded r s w).1
      ≡ (update env (correct s (env.now w.calls) loaded) (tick w)).1
unfolding correct_one ◌>>=◌ time_now attempt either
correct_one_world env loaded r s w =
    let (a, w') = update env (correct s (env.now w.calls) loaded) (tick w) in
    after_update_world env r a w'

-- With a database that answers its update, the correction of a loaded transaction overwrites
-- whatever is stored under its identifier by then, a final status included: the update compares
-- nothing with what was loaded.
pub stale_correction_overwrites :
    (env : Env) (loaded stored : PaymentTransaction) (r : ReconcileResult) (s : String) (w : World)
    → lookup loaded.id w.transactions ≡ some stored
    → env.fails (suc (suc w.calls)) ≡ false
    → let w' = (correct_one env loaded r s w).1 in
      lookup loaded.id w'.transactions
      ≡ some (record (correct s (env.now w.calls) loaded) { updated_at = env.now (suc w.calls) })
stale_correction_overwrites env loaded stored r s w found up =
    let c = correct s (env.now w.calls) loaded in
    let same = correct-id env s (env.now w.calls) loaded in
    ap (λ (x : World). lookup loaded.id x.transactions) (correct_one_world env loaded r s w)
    ∙ subst
        (λ id.
          lookup id (update env c (tick w)).1.transactions
          ≡ some (record c { updated_at = env.now (suc w.calls) }))
        same
        (update_overwrites env c stored (tick w)
          (subst (λ id. lookup id w.transactions ≡ some stored) (sym same) found) up)
