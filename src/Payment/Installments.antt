-- ===== src/Payment/Installments.antt =====
-- internal/adapter/mongodb/payment_installment.go: the collection payment_installments.
pub mod Cancelled
use backend_go_role_organiza.Prelude.{
  ℕ, String, ◌==◌, Bool, ◌&&◌, some, List, [], ◌∷◌, length, select, update_where, sort_by, ltb_ℤ,
  member, join,
}
use backend_go_role_organiza.ApiErr.{plain, internal, wrapped}
use backend_go_role_organiza.Payment.Domain.{PaymentInstallment, InstallmentStatus, is_open}
use backend_go_role_organiza.World.{Env, Action, pure, gets, ◌>>=◌, ◌>>◌, modify, time_now, driver}

-- `_id` in `ids`
abbrev pub is_in : List String → PaymentInstallment → Bool
is_in ids i = member i.id ids

-- The `$set` of `MarkPaidBatch`, which reads nothing of the installment.
unfoldable pub mark_paid :
    String → ℕ → String → String → ℕ → PaymentInstallment → PaymentInstallment
mark_paid tx_id paid_at method reference now i = record i {
  status = InstallmentStatus.paid;
  transaction_id = tx_id;
  paid_at = some paid_at;
  payment_method = method;
  payment_reference = reference;
  updated_at = now;
}

-- The filter of `CancelByParticipant`.
abbrev pub is_cancellable : String → String → PaymentInstallment → Bool
is_cancellable event participant i =
    i.event_id == event && (i.participant_id == participant && is_open i.status)

unfoldable pub mark_cancelled : ℕ → PaymentInstallment → PaymentInstallment
mark_cancelled now i = record i { status = InstallmentStatus.cancelled; updated_at = now }

module _ (env : Env) where
  unfoldable pub call : String → Action (Unit {0})
  call what = driver env (λ reason. internal (join (what ∷ ": " ∷ reason ∷ [])))

  unfoldable pub find_by_ids : List String → Action (List PaymentInstallment)
  unfolding call
  find_by_ids ids = do
    call "find installments by ids"
    gets (λ w. select (is_in ids) w.installments)

  unfoldable pub find_by_event_and_participant : String → String → Action (List PaymentInstallment)
  unfolding call
  find_by_event_and_participant event participant = do
    call "find installments by event and participant"
    gets (λ w.
        sort_by (λ i j. ltb_ℤ i.installment_number j.installment_number)
          (select (λ i. i.event_id == event && i.participant_id == participant) w.installments))

  unfoldable pub mark_paid_batch : List String → String → ℕ → String → String → Action (Unit {0})
  mark_paid_batch ids tx_id paid_at method reference = do
    now ← time_now env
    driver env (λ reason. wrapped "mark paid batch" (plain reason))
    modify (λ w. record w {
      installments =
          update_where (is_in ids) (mark_paid tx_id paid_at method reference now) w.installments;
    })

  unfoldable pub cancel_by_participant : String → String → Action ℕ
  cancel_by_participant event participant = do
    now ← time_now env
    driver env (λ reason. wrapped "cancel installments by participant" (plain reason))
    count ← gets (λ w. length (select (is_cancellable event participant) w.installments))
    modify (λ w. record w {
      installments =
          update_where (is_cancellable event participant) (mark_cancelled now) w.installments;
    })
    pure count
