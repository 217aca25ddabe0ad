-- ===== src/Payment/Subledger/Quiet.antt =====
-- Writing to the ledger leaves the transactions, the webhook events and the charges alone.
use backend_go_role_organiza.Prelude.{String}
use backend_go_role_organiza.Payment.Domain.{
  PaymentTransaction, FeeCalculationResult, FeePolicySnapshot,
}
use backend_go_role_organiza.World.{Env}
use backend_go_role_organiza.World.Within.{Within}
use backend_go_role_organiza.Payment.Transactions.Settled.{
  SameRecords, quiet_rules, Within-insert_unique,
}
use backend_go_role_organiza.Payment.Subledger.{
  append_payment_confirmation, append_payment_commitment, track_snapshot,
}

module _ (env : Env) where
  pub track_snapshot-quiet :
      (tx : PaymentTransaction) (s : String) → Within SameRecords (track_snapshot env tx s)
  unfolding track_snapshot
  track_snapshot-quiet tx s = search quiet_rules

  pub append_payment_confirmation-quiet :
      (tx : PaymentTransaction) → Within SameRecords (append_payment_confirmation env tx)
  unfolding append_payment_confirmation
  append_payment_confirmation-quiet tx =
      search (quiet_rules, Within-insert_unique, track_snapshot-quiet)

  pub append_payment_commitment-quiet :
      (tx : PaymentTransaction) (fees : FeeCalculationResult) (s : FeePolicySnapshot)
      → Within SameRecords (append_payment_commitment env tx fees s)
  unfolding append_payment_commitment
  append_payment_commitment-quiet tx fees s =
      search (quiet_rules, Within-insert_unique, track_snapshot-quiet)
