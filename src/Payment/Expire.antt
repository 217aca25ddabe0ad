-- ===== src/Payment/Expire.antt =====
-- internal/usecase/payment/expire_transaction.go, and its Temporal activity in
-- internal/adapter/temporal/activity/payment.go.
pub mod Laws
use backend_go_role_organiza.Prelude.{String, Bool, true, false, if◌then◌else◌}
use backend_go_role_organiza.ApiErr.{Error, wrapped, is_not_found, transaction_already_terminal}
use backend_go_role_organiza.Payment.Domain.{PaymentTransaction, is_terminal, mark_cancelled}
use backend_go_role_organiza.World.{
  World, Env, Action, Result, ok, err, pure, raise, attempt, context, ◌>>=◌, time_now,
}
use backend_go_role_organiza.Payment.Transactions.{find_by_id, update}

module _ (env : Env) where
  unfoldable pub expire_loaded : PaymentTransaction → Action (Unit {0})
  expire_loaded tx = do
    now ← time_now env
    context "expire transaction: update" (update env (mark_cancelled "TIMEOUT" now tx))

  unfoldable pub after_find : Result PaymentTransaction → Action (Unit {0})
  unfolding expire_loaded
  after_find (ok tx) =
      if is_terminal tx then raise transaction_already_terminal else expire_loaded tx
  after_find (err e) =
      if is_not_found e then pure tt else raise (wrapped "expire transaction: find by id" e)

  unfoldable pub execute : String → Action (Unit {0})
  unfolding after_find
  execute transaction_id = do answer ← attempt (find_by_id env transaction_id); after_find answer
