-- ===== src/Payment/Batch/Charges.antt =====
-- A batch payment charges once, for its total.
use backend_go_role_organiza.Prelude.{ℕ, String, refl, Option, none, some, List}
use backend_go_role_organiza.Payment.Domain.{
  PaymentTransaction, CreditCardInput, ProcessPaymentInput, ProviderPayment,
}
use backend_go_role_organiza.World.{Env}
use backend_go_role_organiza.World.Within.{Within}
use backend_go_role_organiza.Payment.Installments.{mark_paid_batch}
use backend_go_role_organiza.Payment.Allocation.Quiet.{mark_paid_batch-quiet}
use backend_go_role_organiza.Payment.Process.Charge.{CardTokens, charge_request}
use backend_go_role_organiza.Payment.Process.Cards.{save_card}
use backend_go_role_organiza.Payment.Process.Charges.{
  SameCharges, charge_rules, give_up-SameCharges, details-SameCharges, touch-SameCharges,
  replace-SameCharges, resolve_snapshot-SameCharges, save-SameCharges, commitment-SameCharges,
  resolve_saved_card-SameCharges, get_or_create_customer-SameCharges,
}
use backend_go_role_organiza.Payment.Process.Once.{
  Charges, Charges-of-same, Charges-if, Charges-bind, Charges-request_or, charge_then,
}
use backend_go_role_organiza.Payment.Transactions.Settled.{Within-insert_unique}
use backend_go_role_organiza.Payment.Process.{Setup}
use backend_go_role_organiza.Payment.Batch.Charge.{
  settle_card, batch_details, new_card_at, batch_persist_card, batch_accepted, batch_give_up,
  batch_submit, batch_tokenise, batch_record_and_charge,
}
use backend_go_role_organiza.Payment.Batch.{batch_pay}

module _ (env : Env) (setup : Setup) (input : ProcessPaymentInput) (customer : String) where
  mark_paid-SameCharges :
      (ids : List String) (tx : String) (at : ℕ) (m r : String)
      → Within SameCharges (mark_paid_batch env ids tx at m r)
  mark_paid-SameCharges ids tx at m r = record {
    at = λ w. record { no_charge = ((mark_paid_batch-quiet env ids tx at m r).at w).same_charges };
  }

  batch_details-SameCharges :
      (now : ℕ) (p : ProviderPayment) (tx : PaymentTransaction)
      → Within SameCharges (batch_details env setup input customer now p tx)
  unfolding batch_details settle_card
  batch_details-SameCharges now p tx =
      search (charge_rules, mark_paid-SameCharges, details-SameCharges) depth 9

  new_card_at-SameCharges :
      (now : ℕ) (c : CreditCardInput) (t : CardTokens)
      → Within SameCharges (new_card_at env setup input customer now c t)
  unfolding new_card_at save_card
  new_card_at-SameCharges now c t = search (charge_rules, Within-insert_unique) depth 12

  persist-SameCharges :
      (now : ℕ) (card : Option CreditCardInput) (t : CardTokens)
      → Within SameCharges (batch_persist_card env setup input customer now card t)
  unfolding batch_persist_card
  persist-SameCharges now none t = search charge_rules
  persist-SameCharges now (some c) t = search (charge_rules, new_card_at-SameCharges)

  accepted-SameCharges :
      (card : Option CreditCardInput) (t : CardTokens) (tx : PaymentTransaction)
      (p : ProviderPayment)
      → Within SameCharges (batch_accepted env setup input customer card t tx p)
  unfolding batch_accepted
  accepted-SameCharges card t tx p =
      search
        (
          charge_rules, batch_details-SameCharges, touch-SameCharges, replace-SameCharges,
          persist-SameCharges,
        )
        depth 12

  batch_give_up-SameCharges :
      (s : String) (tx : PaymentTransaction)
      → Within SameCharges (batch_give_up env setup input customer s tx)
  unfolding batch_give_up
  batch_give_up-SameCharges s tx = search (charge_rules, give_up-SameCharges)

  batch_submit-Charges :
      (due : String) (card : Option CreditCardInput) (tx : PaymentTransaction) (t : CardTokens)
      → Charges input (batch_submit env setup input customer due card tx t)
  unfolding batch_submit charge_request
  batch_submit-Charges due card tx t =
      Charges-request_or input env _ _ _
        (λ p. charge_then input env _ _ refl refl (accepted-SameCharges card t tx p))
        (λ reason. Charges-of-same input _ (batch_give_up-SameCharges _ tx))

  batch_tokenise-Charges :
      (due : String) (tx : PaymentTransaction) (card : Option CreditCardInput)
      → Charges input (batch_tokenise env setup input customer due tx card)
  unfolding batch_tokenise
  batch_tokenise-Charges due tx none = batch_submit-Charges due none tx ("", "", "")
  batch_tokenise-Charges due tx (some c) =
      search
        (
          Charges-if, Charges-request_or, Charges-of-same, batch_give_up-SameCharges,
          batch_submit-Charges,
        )
        depth 9

  batch_record-Charges :
      (card : Option CreditCardInput)
      → Charges input (batch_record_and_charge env setup input customer card)
  unfolding batch_record_and_charge
  batch_record-Charges card =
      Charges-bind input _ _ (search (charge_rules, resolve_snapshot-SameCharges)) λ snapshot.
        Charges-bind input _ _ (search charge_rules) λ at.
          Charges-bind input _ _ (search charge_rules) λ id.
            Charges-bind input _ _ (search (charge_rules, save-SameCharges)) λ tx.
              Charges-bind input _ _ (search (charge_rules, commitment-SameCharges)) λ _.
                Charges-bind input _ _ (search charge_rules) λ now. batch_tokenise-Charges _ tx card

pub batch_pay-Charges :
    (env : Env) (setup : Setup) (input : ProcessPaymentInput)
    → Charges input (batch_pay env setup input)
unfolding batch_pay
batch_pay-Charges env setup input =
    Charges-bind input _ _ (resolve_saved_card-SameCharges env input) λ card.
      Charges-bind input _ _ (search (charge_rules, get_or_create_customer-SameCharges))
        λ customer. batch_record-Charges env setup input customer card
