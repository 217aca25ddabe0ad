-- ===== src/Payment/Subledger.antt =====
-- internal/usecase/payment/subledger_dual_write.go: the collections ledger_entries, with its unique
-- index on sourceEventId, and ledger_snapshot_events.
pub mod Quiet
use backend_go_role_organiza.Prelude.{
  ℕ, String, ◌==◌, Bool, none, some, List, [], ◌∷◌, ◌++◌, any, update_first, join, is_set,
  if◌then◌else◌,
}
use backend_go_role_organiza.ApiErr.{plain, wrapped}
use backend_go_role_organiza.Payment.Domain.{
  PaymentTransaction, FeeCalculationResult, FeePolicySnapshot, LedgerEntry, SnapshotEvent,
  method_text,
}
use backend_go_role_organiza.World.{
  Env, Action, ◌>>=◌, ◌>>◌, modify, when, ignore, time_now, driver, insert_unique,
}

abbrev pub has_source : String → LedgerEntry → Bool
has_source id e = e.source_event_id == id

-- `ReplaceOne` by `_id` with upsert.
unfoldable pub upsert : SnapshotEvent → List SnapshotEvent → List SnapshotEvent
upsert e es =
    if any (λ s. s.id == e.id) es
    then update_first (λ s. s.id == e.id) (λ _. e) es
    else es ++ e ∷ []

-- The key that makes the commitment entry unique.
unfoldable pub commitment_key : PaymentTransaction → String
commitment_key tx = if is_set tx.idempotency_key then tx.idempotency_key else tx.id

module _ (env : Env) where
  unfoldable pub commitment_entry :
      PaymentTransaction → FeeCalculationResult → FeePolicySnapshot → LedgerEntry
  unfolding commitment_key
  commitment_entry tx fees snapshot = record {
    source_event_id = join ("payment:commitment:" ∷ commitment_key tx ∷ []);
    source_type = "PAYMENT";
    entry_type = "PAYMENT_COMMITMENT";
    committed_delta_cents = fees.gross_amount_cents;
    transaction_id = tx.id;
    provider = tx.provider;
    payment_method = method_text tx.payment_method;
    gross_amount_cents = fees.gross_amount_cents;
    psp_fee_applied_cents = some fees.psp_fee_applied_cents;
    platform_fee_applied_cents = some fees.platform_fee_applied_cents;
    net_amount_cents = some fees.net_amount_cents;
    fee_policy_source = snapshot.fee_policy_source;
    reconciliation_key = join (tx.event_id ∷ ":" ∷ tx.id ∷ []);
    provider_transaction_id = "";
    completed_at = none;
    competence_month = env.month tx.created_at;
    created_at = tx.created_at;
  }

  unfoldable pub confirmation_entry : PaymentTransaction → ℕ → LedgerEntry
  confirmation_entry tx now = record {
    source_event_id = join ("payment:confirmation:" ∷ tx.id ∷ []);
    source_type = "PAYMENT";
    entry_type = "PAYMENT_CONFIRMATION";
    committed_delta_cents = tx.amount_cents;
    transaction_id = tx.id;
    provider = tx.provider;
    payment_method = method_text tx.payment_method;
    gross_amount_cents = tx.amount_cents;
    psp_fee_applied_cents = none;
    platform_fee_applied_cents = none;
    net_amount_cents = none;
    fee_policy_source = "";
    reconciliation_key = "";
    provider_transaction_id = tx.provider_transaction_id;
    completed_at = tx.completed_at;
    competence_month = env.month tx.created_at;
    created_at = now;
  }

  -- The best-effort write that follows a new entry.
  unfoldable pub track_snapshot : PaymentTransaction → String → Action (Unit {0})
  unfolding upsert
  track_snapshot tx source = do
    now ← time_now env
    ignore (do
      driver env plain
      modify (λ w. record w {
        snapshot_events =
            upsert
              (record {
                id = join ("payment:" ∷ tx.event_id ∷ []);
                last_event_id = source;
                event_id = tx.event_id;
                processed_at = now;
                updated_at = now;
              })
              w.snapshot_events;
      }))

  unfoldable pub insert_entry : String → LedgerEntry → Action Bool
  insert_entry what e =
      insert_unique env (λ reason. wrapped what (plain reason))
        (λ w. any (has_source e.source_event_id) w.ledger_entries)
        (λ w. record w { ledger_entries = w.ledger_entries ++ e ∷ [] })

  -- A duplicate key is a silent no-op.
  unfoldable pub append_payment_commitment :
      PaymentTransaction → FeeCalculationResult → FeePolicySnapshot → Action (Unit {0})
  unfolding insert_entry track_snapshot commitment_entry
  append_payment_commitment tx fees snapshot = do
    let entry = commitment_entry tx fees snapshot
    fresh ← insert_entry "subledger: insert ledger entry" entry
    when fresh (track_snapshot tx entry.source_event_id)

  unfoldable pub append_payment_confirmation : PaymentTransaction → Action (Unit {0})
  unfolding insert_entry track_snapshot confirmation_entry
  append_payment_confirmation tx = do
    now ← time_now env
    let entry = confirmation_entry tx now
    fresh ← insert_entry "subledger: insert confirmation entry" entry
    when fresh (track_snapshot tx entry.source_event_id)
