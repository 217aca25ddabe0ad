-- ===== src/Payment/Transactions/Answers.antt =====
-- The repository's operations when the database answers.
use backend_go_role_organiza.Prelude.{
  suc, String, ◌≡◌, refl, false, some, List, [], ◌∷◌, arith, eq_iff,
}
use mathlib.Core.Path.{subst, sym}
use backend_go_role_organiza.ApiErr.{not_found}
use backend_go_role_organiza.Payment.Domain.{PaymentTransaction}
use backend_go_role_organiza.World.{
  World, Env, ok, ◌>>=◌, tick, driver, gets, or_raise, raise_if, modify, time_now,
}
use backend_go_role_organiza.Payment.Transactions.{lookup, replace_doc, replace, update, find_by_id}

pub id_of_lookup :
    (id : String) (ts : List PaymentTransaction) (t : PaymentTransaction)
    → lookup id ts ≡ some t
    → t.id ≡ id
id_of_lookup id [] t e = absurd (ground (arith, e))
id_of_lookup id (u ∷ ts) t e = ground (arith, id_of_lookup id ts t, eq_iff u.id id)

module _ (env : Env) where
  pub find_by_id_up :
      (id : String) (w : World)
      → env.fails w.calls ≡ false
      → find_by_id env id w
        ≡ or_raise (lookup id w.transactions) (not_found "payment_transaction" id) (tick w)
  unfolding find_by_id ◌>>=◌ driver raise_if gets
  find_by_id_up id w up = rw up refl

  pub update_up :
      (tx : PaymentTransaction) (w : World) (t : PaymentTransaction)
      → env.fails (suc w.calls) ≡ false
      → lookup tx.id w.transactions ≡ some t
      → update env tx w ≡ (
        ok tt,
        record (tick (tick w)) {
          transactions = replace_doc (record tx { updated_at = env.now w.calls }) w.transactions;
        },
      )
  unfolding update replace ◌>>=◌ driver raise_if gets modify time_now
  update_up tx w t up stored = rw up (rw stored refl)

pub lookup_self :
    (id : String) (ts : List PaymentTransaction) (t : PaymentTransaction)
    → lookup id ts ≡ some t
    → lookup t.id ts ≡ some t
lookup_self id ts t e = subst (λ i. lookup i ts ≡ some t) (sym (id_of_lookup id ts t e)) e
