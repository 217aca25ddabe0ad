-- ===== src/Payment/Process/Charges.antt =====
-- The steps of a payment that make no charge at the provider.
use backend_go_role_organiza.Prelude.{
  ℕ, String, ◌≡◌, refl, ◌∙◌, ◌⊎◌, inl, inr, Bool, true, false, Option, none, some, List, [], ◌∷◌,
  ◌++◌, if◌then◌else◌,
}
use backend_go_role_organiza.Payment.Domain.{
  PaymentMethod, PaymentTransaction, CreditCardInput, ProcessPaymentInput, ProviderPayment,
  AsaasCustomerLink, FeePolicySnapshot, FeeCalculationResult,
}
use backend_go_role_organiza.World.{World, Env, Action, Result, ok, err, modify}
use backend_go_role_organiza.World.Within.{IsFrame, Within, Within-bind, within_rules}
use backend_go_role_organiza.Payment.Transactions.{
  save, replace, touch, find_by_idempotency_key, after_insert, insert_one, insert_doc, call,
  assign_id, Insert, inserted, duplicate, failed,
}
use backend_go_role_organiza.Payment.Transactions.Settled.{Within-insert_unique}
use backend_go_role_organiza.Payment.Fees.{resolve_snapshot, find_by_evento_id}
use backend_go_role_organiza.Payment.Subledger.{append_payment_commitment}
use backend_go_role_organiza.Payment.Subledger.Quiet.{append_payment_commitment-quiet}
use backend_go_role_organiza.Payment.Process.Customer.{
  get_or_create_customer, create_customer, find_link, save_link, find_usuario, after_link,
}
use backend_go_role_organiza.Payment.Process.Cards.{
  resolve_saved_card, find_card, use_card, persist_card, new_card, save_card,
}
use backend_go_role_organiza.Payment.Process.Charge.{CardTokens, details, after_charge, give_up}
use backend_go_role_organiza.Payment.Process.{
  Setup, find_existing, start_expiration_workflow, start_if_expiring, start_workflow, finish,
  after_lookup,
}

-- The provider accepted no charge in between.
pub record SameCharges (w w' : World) : Type 0 where
  pub no_charge : w'.charges ≡ w.charges

pub SameCharges-frame : IsFrame SameCharges
SameCharges-frame = record {
  rel_refl = λ w. record { no_charge = refl };
  rel_trans = λ u v w h k. record { no_charge = k.no_charge ∙ h.no_charge };
  rel_tick = λ w. record { no_charge = refl };
}

pub SameCharges-modify :
    (f : World → World) → ((w : World) → (f w).charges ≡ w.charges) → Within SameCharges (modify f)
unfolding modify
SameCharges-modify f h = record { at = λ w. record { no_charge = h w } }

pub ruleset charge_rules = (within_rules, SameCharges-frame, SameCharges-modify, refl)

module _ (env : Env) where
  pub find_link-SameCharges : (u : String) → Within SameCharges (find_link env u)
  unfolding find_link
  find_link-SameCharges u = search charge_rules

  pub create_customer-SameCharges : (u c : String) → Within SameCharges (create_customer env u c)
  unfolding create_customer find_usuario save_link
  create_customer-SameCharges u c = search charge_rules depth 12

  pub after_link-SameCharges :
      (u c : String) (r : Result AsaasCustomerLink) → Within SameCharges (after_link env u c r)
  unfolding after_link
  after_link-SameCharges u c (ok l) = search charge_rules
  after_link-SameCharges u c (err e) = search (charge_rules, create_customer-SameCharges)

  pub get_or_create_customer-SameCharges :
      (u c : String) → Within SameCharges (get_or_create_customer env u c)
  unfolding get_or_create_customer
  get_or_create_customer-SameCharges u c =
      search (charge_rules, find_link-SameCharges, after_link-SameCharges)

  pub resolve_saved_card-SameCharges :
      (input : ProcessPaymentInput) → Within SameCharges (resolve_saved_card env input)
  unfolding resolve_saved_card find_card use_card
  resolve_saved_card-SameCharges input = search charge_rules depth 12

  pub new_card-SameCharges :
      (u : String) (c : CreditCardInput) (t : CardTokens) → Within SameCharges (new_card env u c t)
  unfolding new_card save_card
  new_card-SameCharges u c t = search (charge_rules, Within-insert_unique) depth 12

  pub persist_card-SameCharges :
      (input : ProcessPaymentInput) (card : Option CreditCardInput) (t : CardTokens)
      → Within SameCharges (persist_card env input card t)
  unfolding persist_card
  persist_card-SameCharges input none t = search charge_rules
  persist_card-SameCharges input (some c) t = search (charge_rules, new_card-SameCharges)

  pub resolve_snapshot-SameCharges : (e : String) → Within SameCharges (resolve_snapshot env e)
  unfolding resolve_snapshot find_by_evento_id
  resolve_snapshot-SameCharges e = search charge_rules depth 12

  pub insert_doc-SameCharges :
      (t : PaymentTransaction) (b : Bool) → Within SameCharges (insert_doc t b)
  unfolding insert_doc
  insert_doc-SameCharges t true = search charge_rules
  insert_doc-SameCharges t false = search charge_rules

  pub insert_one-SameCharges : (t : PaymentTransaction) → Within SameCharges (insert_one env t)
  unfolding insert_one
  insert_one-SameCharges t = search (charge_rules, insert_doc-SameCharges) depth 9

  pub find_by_key-SameCharges : (k : String) → Within SameCharges (find_by_idempotency_key env k)
  unfolding find_by_idempotency_key call
  find_by_key-SameCharges k = search charge_rules depth 9

  pub after_insert-SameCharges :
      (t : PaymentTransaction) (o : Insert) → Within SameCharges (after_insert env t o)
  unfolding after_insert
  after_insert-SameCharges t inserted = search charge_rules
  after_insert-SameCharges t duplicate = search (charge_rules, find_by_key-SameCharges)
  after_insert-SameCharges t (failed e) = search charge_rules

  pub save-SameCharges : (t : PaymentTransaction) → Within SameCharges (save env t)
  unfolding save assign_id
  save-SameCharges t =
      search (charge_rules, insert_one-SameCharges, after_insert-SameCharges) depth 9

  pub commitment-SameCharges :
      (t : PaymentTransaction) (f : FeeCalculationResult) (s : FeePolicySnapshot)
      → Within SameCharges (append_payment_commitment env t f s)
  commitment-SameCharges t f s = record {
    at =
        λ w. record { no_charge = ((append_payment_commitment-quiet env t f s).at w).same_charges };
  }

  pub replace-SameCharges : (t : PaymentTransaction) → Within SameCharges (replace env t)
  unfolding replace call
  replace-SameCharges t = search charge_rules depth 9

  pub touch-SameCharges : (t : PaymentTransaction) → Within SameCharges (touch env t)
  unfolding touch
  touch-SameCharges t = search charge_rules

  pub give_up-SameCharges :
      (s : String) (t : PaymentTransaction) → Within SameCharges (give_up env s t)
  unfolding give_up
  give_up-SameCharges s t = search (charge_rules, touch-SameCharges, replace-SameCharges)

  pub details-SameCharges :
      (m : PaymentMethod) (p : ProviderPayment) (t : PaymentTransaction)
      → Within SameCharges (details env m p t)
  unfolding details
  details-SameCharges PaymentMethod.pix p t = search charge_rules
  details-SameCharges PaymentMethod.boleto p t = search charge_rules
  details-SameCharges PaymentMethod.credit_card p t = search charge_rules
  details-SameCharges (PaymentMethod.other s) p t = search charge_rules

  pub after_charge-SameCharges :
      (name : String) (m : PaymentMethod) (tokens : CardTokens)
      (k : PaymentTransaction → Action PaymentTransaction) (t : PaymentTransaction)
      (p : ProviderPayment)
      → ((u : PaymentTransaction) → Within SameCharges (k u))
      → Within SameCharges (after_charge env name m tokens k t p)
  unfolding after_charge
  after_charge-SameCharges name m tokens k t p h =
      search (charge_rules, details-SameCharges, touch-SameCharges, replace-SameCharges, h) depth 9

  module _ (setup : Setup) where
    pub start-SameCharges :
        (t : PaymentTransaction) (at : ℕ) → Within SameCharges (start_workflow env setup t at)
    unfolding start_workflow
    start-SameCharges t at = search charge_rules

    pub start_if-SameCharges :
        (t : PaymentTransaction) (o : Option ℕ)
        → Within SameCharges (start_if_expiring env setup t o)
    unfolding start_if_expiring
    start_if-SameCharges t none = search charge_rules
    start_if-SameCharges t (some at) = search (charge_rules, start-SameCharges)

    pub finish-SameCharges :
        (input : ProcessPaymentInput) (card : Option CreditCardInput) (tokens : CardTokens)
        (t : PaymentTransaction)
        → Within SameCharges (finish env setup input card tokens t)
    unfolding finish start_expiration_workflow
    finish-SameCharges input card tokens t =
        search (charge_rules, start_if-SameCharges, persist_card-SameCharges) depth 9

    pub after_lookup-SameCharges :
        (r : Result PaymentTransaction) → Within SameCharges (after_lookup env setup r)
    unfolding after_lookup
    after_lookup-SameCharges (ok t) = search charge_rules
    after_lookup-SameCharges (err e) = search charge_rules

    pub find_existing-SameCharges : (k : String) → Within SameCharges (find_existing env setup k)
    unfolding find_existing
    find_existing-SameCharges k =
        search (charge_rules, find_by_key-SameCharges, after_lookup-SameCharges)
