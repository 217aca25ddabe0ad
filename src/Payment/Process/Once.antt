-- ===== src/Payment/Process/Once.antt =====
-- A payment is charged at most once, for the amount of its input.
use backend_go_role_organiza.Prelude.{
  ℕ, String, ◌≡◌, refl, ◌∙◌, ◌⊎◌, inl, inr, Bool, true, false, Option, none, some, [], ◌∷◌, ◌++◌,
  if◌then◌else◌,
}
use backend_go_role_organiza.Payment.Domain.{
  PaymentTransaction, CreditCardInput, ProcessPaymentInput, CreatePaymentRequest,
}
use backend_go_role_organiza.World.{
  World, Env, Action, Result, ok, err, raise, modify, either, ◌>>=◌, request_or, on_reply, tick,
}
use backend_go_role_organiza.World.Within.{Within}
use backend_go_role_organiza.Payment.Process.Charge.{
  CardTokens, submit, create_payment, charge_request, method_to_billing_type,
}
use backend_go_role_organiza.Payment.Process.{
  Setup, tokenise, charge, record_and_charge, pay, process_new, after_existing, execute,
}
use backend_go_role_organiza.Payment.Process.Charges.{
  SameCharges, SameCharges-frame, charge_rules, give_up-SameCharges, after_charge-SameCharges,
  finish-SameCharges, find_existing-SameCharges, resolve_snapshot-SameCharges, save-SameCharges,
  commitment-SameCharges, resolve_saved_card-SameCharges, get_or_create_customer-SameCharges,
}

-- No charge, or one for the amount and by the method of the input.
unfoldable pub ChargedOnce : ProcessPaymentInput → World → World → Type 0
ChargedOnce input w w' =
    (w'.charges ≡ w.charges)
    ⊎ ((req : CreatePaymentRequest) × (w'.charges ≡ w.charges ++ req ∷ [])
        × (req.value_cents ≡ input.amount_cents)
        × (req.billing_type ≡ method_to_billing_type input.method))

module _ (input : ProcessPaymentInput) where
  pub record Charges {A : Type 0} (m : Action A) : Type 0 where
    pub at : (w : World) → ChargedOnce input w (m w).1

  after_same : (u v w : World) → SameCharges u v → ChargedOnce input v w → ChargedOnce input u w
  unfolding ChargedOnce
  after_same u v w h (inl k) = inl (k ∙ h.no_charge)
  after_same u v w h (inr (req, k, a, b)) = inr (req, rw (← h.no_charge) k, a, b)

  module _ {A : Type 0} where
    pub Charges-of-same : (m : Action A) → Within SameCharges m → Charges m
    unfolding ChargedOnce
    Charges-of-same m h = record { at = λ w. inl (h.at w).no_charge }

    pub Charges-if :
        (b : Bool) (m n : Action A) → Charges m → Charges n → Charges (if b then m else n)
    Charges-if true m n hm hn = hm
    Charges-if false m n hm hn = hn

  module _ {A B : Type 0} where
    either-Charges :
        (r : Result A) (f : A → Action B) → ((a : A) → Charges (f a)) → Charges (either r f raise)
    unfolding either raise ChargedOnce
    either-Charges (ok a) f h = h a
    either-Charges (err e) f h = record { at = λ w. inl refl }

    -- The first step makes no charge.
    pub Charges-bind :
        (m : Action A) (f : A → Action B)
        → Within SameCharges m
        → ((a : A) → Charges (f a))
        → Charges (m >>= f)
    unfolding ◌>>=◌
    Charges-bind m f hm hf = record {
      at = λ w. after_same _ _ _ (hm.at w) ((either-Charges (m w).0 f hf).at (m w).1);
    }

    on_reply-Charges :
        (env : Env) (o : Option A) (f : A → Action B) (g : String → Action B) (w : World)
        → ((a : A) → Charges (f a))
        → ((s : String) → Charges (g s))
        → ChargedOnce input w (on_reply env o f g w).1
    unfolding on_reply
    on_reply-Charges env none f g w hf hg =
        after_same _ _ _ (SameCharges-frame.rel_tick w) ((hg (env.reason w.calls)).at (tick w))
    on_reply-Charges env (some a) f g w hf hg =
        after_same _ _ _ (SameCharges-frame.rel_tick w) ((hf a).at (tick w))

    pub Charges-request_or :
        (env : Env) (reply : ℕ → Option A) (f : A → Action B) (g : String → Action B)
        → ((a : A) → Charges (f a))
        → ((s : String) → Charges (g s))
        → Charges (request_or env reply f g)
    unfolding request_or
    Charges-request_or env reply f g hf hg = record {
      at = λ w. on_reply-Charges env (reply w.calls) f g w hf hg;
    }

  module _ (env : Env) where
    pub charge_then :
        {A : Type 0} (req : CreatePaymentRequest) (m : Action A)
        → req.value_cents ≡ input.amount_cents
        → req.billing_type ≡ method_to_billing_type input.method
        → Within SameCharges m
        → Charges (modify (λ w. record w { charges = w.charges ++ req ∷ [] }) >>= λ _. m)
    unfolding ◌>>=◌ modify either ChargedOnce
    charge_then req m a b h = record {
      at = λ w. inr (req, (h.at (record w { charges = w.charges ++ req ∷ [] })).no_charge, a, b);
    }

    submit-Charges :
        (name customer due : String) (tx : PaymentTransaction) (tokens : CardTokens)
        (k : PaymentTransaction → Action PaymentTransaction)
        → ((u : PaymentTransaction) → Within SameCharges (k u))
        → Charges (submit env name customer due input tx tokens k)
    unfolding submit create_payment charge_request
    submit-Charges name customer due tx tokens k h =
        Charges-request_or env _ _ _
          (λ p. charge_then _ _ refl refl (after_charge-SameCharges env name _ tokens k tx p h))
          (λ reason. Charges-of-same _ (give_up-SameCharges env _ tx))

    module _ (setup : Setup) where
      tokenise-Charges :
          (customer : String) (card : Option CreditCardInput) (tx : PaymentTransaction)
          (k : CardTokens → Action PaymentTransaction)
          → ((t : CardTokens) → Charges (k t))
          → Charges (tokenise env setup input customer card tx k)
      unfolding tokenise
      tokenise-Charges customer none tx k h = h ("", "", "")
      tokenise-Charges customer (some c) tx k h =
          search (Charges-if, Charges-request_or, Charges-of-same, give_up-SameCharges, h) depth 9

      charge-Charges :
          (customer : String) (card : Option CreditCardInput) (tx : PaymentTransaction)
          → Charges (charge env setup input customer card tx)
      unfolding charge
      charge-Charges customer card tx = Charges-bind _ _ (search charge_rules) λ now.
          tokenise-Charges customer card tx _ λ tokens.
            submit-Charges _ customer _ tx tokens _ (finish-SameCharges env setup input card tokens)

      record_and_charge-Charges :
          (customer : String) (card : Option CreditCardInput)
          → Charges (record_and_charge env setup input customer card)
      unfolding record_and_charge
      record_and_charge-Charges customer card =
          Charges-bind _ _ (search (charge_rules, resolve_snapshot-SameCharges)) λ snapshot.
            Charges-bind _ _ (search charge_rules) λ at.
              Charges-bind _ _ (search charge_rules) λ id.
                Charges-bind _ _ (search (charge_rules, save-SameCharges)) λ tx.
                  Charges-bind _ _ (search (charge_rules, commitment-SameCharges))
                    λ _. charge-Charges customer card tx

      pay-Charges : Charges (pay env setup input)
      unfolding pay
      pay-Charges = Charges-bind _ _ (resolve_saved_card-SameCharges env input) λ card.
          Charges-bind _ _ (search (charge_rules, get_or_create_customer-SameCharges))
            λ customer. record_and_charge-Charges customer card

      process_new-Charges : (o : Option String) → Charges (process_new env setup input o)
      unfolding process_new
      process_new-Charges (some s) = Charges-of-same _ (search charge_rules)
      process_new-Charges none = pay-Charges

      after_existing-Charges :
          (o : Option PaymentTransaction) → Charges (after_existing env setup input o)
      unfolding after_existing
      after_existing-Charges (some t) = Charges-of-same _ (search charge_rules)
      after_existing-Charges none = process_new-Charges _

      execute-Charges : Charges (execute env setup input)
      unfolding execute
      execute-Charges =
          Charges-bind _ _ (find_existing-SameCharges env setup _) λ o. after_existing-Charges o

-- One call makes at most one charge at the provider, for exactly the amount and by the method of its
-- input, whatever fails.
pub process_charges_once :
    (env : Env) (setup : Setup) (input : ProcessPaymentInput) (w : World)
    → ChargedOnce input w (execute env setup input w).1
process_charges_once env setup input w = (execute-Charges input env setup).at w
