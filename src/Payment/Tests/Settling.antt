-- ===== src/Payment/Tests/Settling.antt =====
-- The theorems on the reconciliation and the expiry at concrete inputs.
use backend_go_role_organiza.Prelude.{◌≡◌, refl, ◌+◌, ◌≤◌, some, sort_by}
use backend_go_role_organiza.Payment.Domain.{TransactionStatus}
use backend_go_role_organiza.World.{ok}
use backend_go_role_organiza.Payment.Transactions.{lookup, save}
use backend_go_role_organiza.Payment.Transactions.Laws.{IsUnique}
use backend_go_role_organiza.World.{
  ◌>>=◌, pure, gets, attempt, wrap, context, modify, time_now, driver, request,
}
use backend_go_role_organiza.Payment.Callback
use backend_go_role_organiza.Payment.Domain.{mark_completed}
use backend_go_role_organiza.Payment.Reconcile
use backend_go_role_organiza.Payment.Reconcile.Effects.{stale_correction_overwrites}
use backend_go_role_organiza.Payment.Expire
use backend_go_role_organiza.Payment.Reconcile.{
  ReconcileResult, is_provider_terminal, correct, correct_one,
}
use backend_go_role_organiza.Payment.Reconcile.Frozen.{reconcile_keeps_final}
use backend_go_role_organiza.Payment.Reconcile.Counts.{reconcile_counts}
use backend_go_role_organiza.Payment.Expire.Laws.{expired, expire_lem, expire_keeps_final}
use backend_go_role_organiza.Payment.Workflows.{timer_fires, payment_expiration_workflow}
use backend_go_role_organiza.Payment.Workflows.Outcomes.{
  expired_by_workflow, expiration_workflow_lem, expiration_workflow_keeps_final,
}
use backend_go_role_organiza.Payment.Transactions
use backend_go_role_organiza.Payment.Tests.Data.{
  world-IsUnique, flaky, tx, env, settled, waiting_tx, world,
}

reconcile_keeps_final_example :
    let w' = (Reconcile.execute env 100 world).1 in
    IsUnique w'.transactions × (lookup "t1" w'.transactions ≡ some settled)
reconcile_keeps_final_example =
    reconcile_keeps_final env 100 world "t1" settled world-IsUnique refl refl

abbrev one_updated : ReconcileResult
one_updated = record { checked = 1; updated = 1; failed = 0 }

reconciles_one : (Reconcile.execute env 100 world).0 ≡ ok one_updated
unfolding Reconcile.execute ◌>>=◌ pure context wrap Transactions.find_pending_older_than driver gets
    sort_by attempt request is_provider_terminal time_now Transactions.update modify correct
    mark_completed
reconciles_one = refl

reconcile_counts_example : 1 + 0 ≤ 1
reconcile_counts_example = reconcile_counts env 100 world one_updated reconciles_one

expire_lem_example : Expire.execute env "t2" world ≡ expired env "t2" world (some waiting_tx)
expire_lem_example = expire_lem env "t2" world (λ n. refl)

expire_keeps_final_example :
    let w' = (Expire.execute env "t1" world).1 in
    IsUnique w'.transactions × (lookup "t1" w'.transactions ≡ some settled)
expire_keeps_final_example = expire_keeps_final env world "t1" "t1" settled world-IsUnique refl refl

expiration_workflow_lem_example :
    payment_expiration_workflow env 5 timer_fires 10 "t1" world
    ≡ expired_by_workflow env 5 timer_fires 10 "t1" world
expiration_workflow_lem_example =
    expiration_workflow_lem env 5 timer_fires 10 "t1" world (λ n. refl)

expiration_workflow_keeps_final_example :
    lookup "t1" (payment_expiration_workflow flaky 5 timer_fires 10 "t2" world).1.transactions
    ≡ some settled
expiration_workflow_keeps_final_example =
    expiration_workflow_keeps_final flaky 5 timer_fires 10 "t2" world "t1" settled world-IsUnique
      refl refl

-- The provider says OVERDUE of a transaction that a webhook has completed in the meantime.
stale_correction_overwrites_example :
    let stale = tx "t1" "pay_1" TransactionStatus.pending in
    let w' = (correct_one env stale one_updated "OVERDUE" world).1 in
    lookup "t1" w'.transactions ≡ some (record (correct "OVERDUE" 0 stale) { updated_at = 1 })
stale_correction_overwrites_example =
    stale_correction_overwrites env (tx "t1" "pay_1" TransactionStatus.pending) settled one_updated
      "OVERDUE" world refl refl
