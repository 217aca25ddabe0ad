-- ===== src/Payment/Allocation.antt =====
-- internal/usecase/payment/installment_allocation.go: how a paid installment is allocated to
-- liabilities, in the collection installment_allocations.
pub mod Shares
pub mod Exact
pub mod Quiet
use backend_go_role_organiza.Prelude.{
  ℕ, suc, String, ◌==◌, Bool, true, false, ◌&&◌, not, List, [], ◌∷◌, ◌++◌, any, select, ℤ, pos,
  ltb_ℤ, eqb_ℤ, add64, join, is_set, if◌then◌else◌,
}
use backend_go_role_organiza.ApiErr.{Error, plain, wrapped}
use backend_go_role_organiza.Payment.Domain.{
  PaymentInstallment, InstallmentAllocation, Float64, is_paid,
}
use backend_go_role_organiza.World.{
  World, Env, Action, pure, raise, gets, context, ◌>>=◌, ◌>>◌, modify, time_now, new_uuid, driver,
  when,
}
use backend_go_role_organiza.Payment.Installments.{find_by_event_and_participant}
use backend_go_role_organiza.Payment.Allocation.Shares.{Share, total_cents, shares, one_hundred}

abbrev of_installment : String → InstallmentAllocation → Bool
of_installment id a = a.installment_id == id

-- The other installments of the participant that carry a liability.
abbrev is_liability_of : PaymentInstallment → PaymentInstallment → Bool
is_liability_of inst sib = is_set sib.liability_id && not (sib.id == inst.id)

module _ (env : Env) where
  -- One document, with a new identifier and the current time.
  unfoldable pub document : String → Share → Action InstallmentAllocation
  document inst_id s = do
    id ← new_uuid env
    now ← time_now env
    pure (record {
      id = id;
      installment_id = inst_id;
      liability_id = s.liability_id;
      amount_cents = s.cents;
      proportion_pct = s.pct;
      created_at = now;
    })

  unfoldable pub documents : String → List Share → Action (List InstallmentAllocation)
  unfolding document
  documents inst_id [] = pure []
  documents inst_id (s ∷ ss) = do d ← document inst_id s; ds ← documents inst_id ss; pure (d ∷ ds)

  -- `InsertOne` and `InsertMany`: at a duplicate identifier the driver stops, and the caller
  -- treats that as done.
  unfoldable pub insert_in_order :
      List InstallmentAllocation → List InstallmentAllocation → List InstallmentAllocation
  insert_in_order stored [] = stored
  insert_in_order stored (d ∷ ds) =
      let rest = insert_in_order (stored ++ d ∷ []) ds in
      if any (λ a. a.id == d.id) stored then stored else rest

  unfoldable pub insert_shares : String → String → List Share → Action (Unit {0})
  unfolding documents insert_in_order
  insert_shares what inst_id ss = do
    ds ← documents inst_id ss
    driver env (λ reason. wrapped what (plain reason))
    modify (λ w. record w { allocations = insert_in_order w.allocations ds })

  unfoldable pub insert_one : String → String → ℤ → Action (Unit {0})
  unfolding insert_shares
  insert_one inst_id liability amount =
      insert_shares "installment allocation: insert" inst_id
        (record { liability_id = liability; cents = amount; pct = one_hundred } ∷ [])

  -- The three cases of `allocateProportional`, once the siblings are selected.
  unfoldable pub allocate_among : PaymentInstallment → List PaymentInstallment → Action (Unit {0})
  unfolding insert_one insert_shares
  allocate_among inst [] = insert_one inst.id inst.id inst.amount_cents
  allocate_among inst (l ∷ ls) =
      if eqb_ℤ (total_cents (pos 0) (l ∷ ls)) (pos 0)
      then insert_one inst.id l.liability_id inst.amount_cents
      else insert_shares "installment allocation: insert many" inst.id
          (shares env.floats inst.amount_cents (l ∷ ls))

  unfoldable pub allocate_proportional : PaymentInstallment → Action (Unit {0})
  unfolding allocate_among
  allocate_proportional inst = do
    siblings ←
        context "installment allocation: find siblings"
          (find_by_event_and_participant env inst.event_id inst.participant_id)
    allocate_among inst (select (is_liability_of inst) siblings)

  unfoldable pub allocate : PaymentInstallment → Action (Unit {0})
  unfolding allocate_proportional insert_one
  allocate inst =
      if not (is_paid inst.status)
      then raise (plain (join ("installment allocation: not PAID: " ∷ inst.id ∷ [])))
      else if not (ltb_ℤ (pos 0) inst.amount_cents)
      then raise (plain (join ("installment allocation: non-positive amount: " ∷ inst.id ∷ [])))
      else do
        driver env (λ reason. wrapped "installment allocation: check existing" (plain reason))
        exists ← gets (λ w. any (of_installment inst.id) w.allocations)
        when (not exists) (
            if is_set inst.liability_id
            then insert_one inst.id inst.liability_id inst.amount_cents
            else allocate_proportional inst)
