-- ===== src/Payment/Batch/Owned.antt =====
-- A batch payment is charged only for installments of the payer that are open.
use backend_go_role_organiza.Prelude.{
  String, ◌≡◌, refl, ◌⊎◌, inl, inr, ◌==◌, true, false, Option, none, some, List, [], ◌∷◌, map, All,
  find, select, is_set, ltb_ℤ, pos, arith, Bool-cases,
}
use backend_go_role_organiza.ApiErr.{Error, is_not_found, not_found}
use backend_go_role_organiza.Payment.Domain.{
  PaymentTransaction, PaymentInstallment, ProcessBatchPaymentInput,
}
use backend_go_role_organiza.World.{
  World, Env, Result, ok, err, pure, raise, raise_if, either, gets, driver, context, wrap, attempt,
  tick, or_raise, ◌>>=◌,
}
use backend_go_role_organiza.Payment.Installments.{is_in, find_by_ids}
use backend_go_role_organiza.Payment.Installments
use backend_go_role_organiza.Payment.Transactions.{find_by_idempotency_key}
use backend_go_role_organiza.Payment.Transactions
use backend_go_role_organiza.Payment.Process.Once.{ChargedOnce}
use backend_go_role_organiza.Payment.Process.{Setup}
use backend_go_role_organiza.Payment.Batch.Checks.{
  is_owned, is_payable, first_missing, first_foreign, first_unpayable, refusal, refuse_owner,
  refuse_status, refuse_total, total_amount_cents,
}
use backend_go_role_organiza.Payment.Batch.Charges.{batch_pay-Charges}
use backend_go_role_organiza.Payment.Batch.{
  as_single, is_empty, find_participations, pay_unless, check_missing, process_batch,
  after_batch_lookup, execute,
}

-- What the database holds of the requested installments and of the payer's participations.
abbrev pub requested : ProcessBatchPaymentInput → World → List PaymentInstallment
requested input w = select (is_in input.installment_ids) w.installments

abbrev pub participation_ids : ProcessBatchPaymentInput → World → List String
participation_ids input w =
    select is_set (map (λ p. p.1) (select (λ p. p.0 == input.user_id) w.participations))

-- The installment is the payer's, and its status lets it be paid.
abbrev pub IsPayableBy : String → List String → PaymentInstallment → Type 0
IsPayableBy user participations i =
    (is_owned user participations i ≡ true) × (is_payable i.status ≡ true)

IsAccepted : ProcessBatchPaymentInput → List String → List PaymentInstallment → Type 0
IsAccepted input participations is =
    All (IsPayableBy input.user_id participations) is
    × (ltb_ℤ (total_amount_cents (pos 0) is) (pos 100) ≡ false)

All-IsPayableBy :
    (user : String) (ps : List String) (is : List PaymentInstallment)
    → first_foreign user ps is ≡ none
    → first_unpayable is ≡ none
    → All (IsPayableBy user ps) is
unfolding first_foreign first_unpayable
All-IsPayableBy user ps [] f u = tt
All-IsPayableBy user ps (i ∷ is) f u = ground (arith, All-IsPayableBy user ps is)

of_status :
    (input : ProcessBatchPaymentInput) (is : List PaymentInstallment)
    (o : Option PaymentInstallment)
    → refuse_status input is o ≡ none
    → (o ≡ none) × (ltb_ℤ (total_amount_cents (pos 0) is) (pos 100) ≡ false)
unfolding refuse_status refuse_total
of_status input is (some i) e = absurd (ground (arith, e))
of_status input is none e = (refl, ground (arith, e))

of_owner :
    (input : ProcessBatchPaymentInput) (is : List PaymentInstallment)
    (o : Option PaymentInstallment)
    → refuse_owner input is o ≡ none
    → (o ≡ none) × (refuse_status input is (first_unpayable is) ≡ none)
unfolding refuse_owner
of_owner input is (some i) e = absurd (ground (arith, e))
of_owner input is none e = (refl, e)

IsAccepted-of_refusal :
    (input : ProcessBatchPaymentInput) (ps : List String) (is : List PaymentInstallment)
    → refusal input ps is ≡ none
    → IsAccepted input ps is
unfolding refusal IsAccepted
IsAccepted-of_refusal input ps is e =
    let a = of_owner input is (first_foreign input.user_id ps is) e in
    let b = of_status input is (first_unpayable is) a.1 in
    (All-IsPayableBy input.user_id ps is a.0 b.0, b.1)

-- No charge; or every requested installment is found, is the payer's and is open, their total is at
-- least 100 cents, and the charge is for that total.
pub BatchCharged : ProcessBatchPaymentInput → World → World → Type 0
unfolding IsAccepted
BatchCharged input w w' =
    let is = requested input w in
    (w'.charges ≡ w.charges)
    ⊎ ((first_missing input.installment_ids is ≡ none)
        × IsAccepted input (participation_ids input w) is
        × ChargedOnce (as_single input is) w w')

module _ (env : Env) (setup : Setup) (input : ProcessBatchPaymentInput) where
  pay_unless-charged :
      (w : World) (o : Option Error)
      → first_missing input.installment_ids (requested input w) ≡ none
      → (o ≡ none → IsAccepted input (participation_ids input w) (requested input w))
      → BatchCharged input w (pay_unless env setup input (requested input w) o w).1
  unfolding pay_unless BatchCharged raise
  pay_unless-charged w (some e) m a = inl refl
  pay_unless-charged w none m a =
      inr (m, a refl, (batch_pay-Charges env setup (as_single input (requested input w))).at w)

  check_missing-charged :
      (w : World) (o : Option String)
      → first_missing input.installment_ids (requested input w) ≡ o
      → BatchCharged input w (check_missing env setup input (requested input w) o w).1
  unfolding check_missing find_participations BatchCharged ChargedOnce raise context wrap driver
      raise_if gets ◌>>=◌ either
  check_missing-charged w (some id) m = inl refl
  check_missing-charged w none m = elim (Bool-cases (env.fails w.calls)) [
    | inl down ↦ rw down (inl refl)
    | inr up ↦ rw up (
        pay_unless-charged (tick w) (refusal input (participation_ids input w) (requested input w))
          m (IsAccepted-of_refusal input (participation_ids input w) (requested input w)))
  ]

  process_batch-charged : (w : World) → BatchCharged input w (process_batch env setup input w).1
  unfolding process_batch find_by_ids Installments.call BatchCharged ChargedOnce raise context wrap
      driver raise_if gets ◌>>=◌ either
  process_batch-charged w = elim (Bool-cases (is_empty input.installment_ids)) [
    | inl empty ↦ rw empty (inl refl)
    | inr full ↦ elim (Bool-cases (env.fails w.calls)) [
      | inl down ↦ rw full (rw down (inl refl))
      | inr up ↦ rw full (rw up (check_missing-charged (tick w) _ refl))
    ]
  ]

  after_batch_lookup-charged :
      (w : World) (r : Result PaymentTransaction)
      → BatchCharged input w (after_batch_lookup env setup input r w).1
  unfolding after_batch_lookup BatchCharged ChargedOnce pure raise
  after_batch_lookup-charged w (ok t) = inl refl
  after_batch_lookup-charged w (err e) = elim (Bool-cases (is_not_found e)) [
    | inl missing ↦ rw missing (process_batch-charged w)
    | inr other ↦ rw other (inl refl)
  ]

  lookup_ticks : (key : String) (w : World) → (find_by_idempotency_key env key w).1 ≡ tick w
  unfolding find_by_idempotency_key Transactions.call ◌>>=◌ driver raise_if gets or_raise either
      raise
  lookup_ticks key w = elim (Bool-cases (env.fails w.calls)) [
    | inl down ↦ rw down refl
    | inr up ↦ rw up (by_find (find (λ x. x.idempotency_key == key) w.transactions))
  ]
    where
      by_find :
          (o : Option PaymentTransaction)
          → (or_raise o (not_found "payment_transaction" key) (tick w)).1 ≡ tick w
      by_find none = refl
      by_find (some t) = refl

  execute-charged : (w : World) → BatchCharged input w (execute env setup input w).1
  unfolding execute BatchCharged ChargedOnce ◌>>=◌ attempt either
  execute-charged w = elim (Bool-cases (is_set input.idempotency_key)) [
    | inl keyed ↦ rw keyed (
        rw (lookup_ticks input.idempotency_key w) (
          after_batch_lookup-charged (tick w)
            (find_by_idempotency_key env input.idempotency_key w).0))
    | inr open_ ↦ rw open_ (process_batch-charged w)
  ]

-- One batch payment has at most one charge accepted at the provider, and it has one only if the
-- database holds every requested installment, each of them is the payer's (its own or one of its
-- participations') and pending or overdue, and their total is at least 100 cents; the charge is for
-- exactly that total and by the method of the input.
pub batch_charges_owned :
    (env : Env) (setup : Setup) (input : ProcessBatchPaymentInput) (w : World)
    → BatchCharged input w (execute env setup input w).1
batch_charges_owned env setup input w = execute-charged env setup input w
