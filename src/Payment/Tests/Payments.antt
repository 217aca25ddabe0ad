-- ===== src/Payment/Tests/Payments.antt =====
-- The theorems on charges, fees and allocations at concrete inputs.
use backend_go_role_organiza.Prelude.{not, select, ◌≡◌, refl, false, none, [], ◌∷◌, pos, arith}
use backend_go_role_organiza.Payment.Domain.{
  is_paid, PaymentMethod, ProcessBatchPaymentInput, ProcessPaymentInput,
}
use backend_go_role_organiza.Payment.Installments.{cancel_by_participant}
use backend_go_role_organiza.Payment.Installments.Cancelled.{
  belongs, is_open_one, cancel_by_participant_lem,
}
use backend_go_role_organiza.World.{ok}
use backend_go_role_organiza.Payment.Allocation.Shares.{shares, allocated}
use backend_go_role_organiza.Payment.Allocation.Exact.{shares_add_up}
use backend_go_role_organiza.Payment.Process
use backend_go_role_organiza.Payment.Batch
use backend_go_role_organiza.Payment.Batch.Owned.{BatchCharged, batch_charges_owned}
use backend_go_role_organiza.Payment.Process.Once.{ChargedOnce, process_charges_once}
use backend_go_role_organiza.Payment.Process.Entry.{process_refuses_invalid}
use backend_go_role_organiza.Payment.Tests.Data.{
  batch_world, floats, env, world, setup, input, installment,
}

abbrev fresh_input : ProcessPaymentInput
fresh_input = record (input PaymentMethod.pix) { idempotency_key = "new" }

process_charges_once_example :
    ChargedOnce fresh_input world (Process.execute env setup fresh_input world).1
process_charges_once_example = process_charges_once env setup fresh_input world

process_refuses_invalid_example :
    let poor = record (input PaymentMethod.pix) { amount_cents = pos 99; idempotency_key = "" } in
    let w' = (Process.execute env setup poor world).1 in
    record w' { calls = 0 } ≡ record world { calls = 0 }
unfolding Process.validate
process_refuses_invalid_example =
    process_refuses_invalid env setup
      (record (input PaymentMethod.pix) { amount_cents = pos 99; idempotency_key = "" }) world
      "valor mínimo é R$1,00 (100 centavos)" refl

shares_add_up_example :
    allocated (pos 0) (shares floats (pos 1000) (installment "l1" 333 ∷ installment "l2" 667 ∷ []))
    ≡ pos 1000
shares_add_up_example =
    shares_add_up floats (pos 1000) (installment "l1" 333) (installment "l2" 667 ∷ [])
      (omega arith, omega arith)

abbrev batch_input : ProcessBatchPaymentInput
batch_input = record {
  user_id = "u1";
  installment_ids = "l1" ∷ "l2" ∷ [];
  method = PaymentMethod.pix;
  idempotency_key = "b1";
  cpf = "12345678909";
  client_ip = "";
  credit_card = none;
  save_card = false;
  saved_card_id = "";
}

batch_charges_owned_example :
    BatchCharged batch_input batch_world (Batch.execute env setup batch_input batch_world).1
batch_charges_owned_example = batch_charges_owned env setup batch_input batch_world

cancel_by_participant_lem_example :
    let (r, w') = cancel_by_participant env "e1" "u1" batch_world in
    (r ≡ ok 3)
    × (select (is_open_one "e1" "u1") w'.installments ≡ [])
    × (select (λ i. is_paid i.status) w'.installments ≡ [])
    × (select (λ i. not (belongs "e1" "u1" i)) w'.installments
        ≡ select (λ i. not (belongs "e1" "u1" i)) batch_world.installments)
cancel_by_participant_lem_example = cancel_by_participant_lem env "e1" "u1" batch_world refl
