-- ===== src/Payment/Process/Entry.antt =====
-- What the validation of a payment refuses.
use backend_go_role_organiza.Prelude.{String, ◌≡◌, refl, ◌∙◌, Option, none, some}
use backend_go_role_organiza.Payment.Domain.{PaymentTransaction, ProcessPaymentInput}
use backend_go_role_organiza.World.{World, Env, Result, ok, err}
use backend_go_role_organiza.World.Within.{IsFrame, Within, within_rules, Within-bind}
use backend_go_role_organiza.Payment.Transactions.{find_by_idempotency_key, call}
use backend_go_role_organiza.Payment.Process.{
  Setup, validate, find_existing, after_lookup, after_existing, process_new, execute,
}

-- `w'` is `w` but for the count of calls.
record Unwritten (w w' : World) : Type 0 where
  same : record w' { calls = 0 } ≡ record w { calls = 0 }

Unwritten-frame : IsFrame Unwritten
Unwritten-frame = record {
  rel_refl = λ w. record { same = refl };
  rel_trans = λ u v w h k. record { same = k.same ∙ h.same };
  rel_tick = λ w. record { same = refl };
}

module _ (env : Env) (setup : Setup) (input : ProcessPaymentInput) where
  after_lookup-Unwritten :
      (r : Result PaymentTransaction) → Within Unwritten (after_lookup env setup r)
  unfolding after_lookup
  after_lookup-Unwritten (ok t) = search (within_rules, Unwritten-frame)
  after_lookup-Unwritten (err e) = search (within_rules, Unwritten-frame)

  find_existing-Unwritten : (key : String) → Within Unwritten (find_existing env setup key)
  unfolding find_existing find_by_idempotency_key call
  find_existing-Unwritten key =
      search (within_rules, Unwritten-frame, after_lookup-Unwritten) depth 12

  after_existing-Unwritten :
      (o : Option PaymentTransaction) (message : String)
      → validate input ≡ some message
      → Within Unwritten (after_existing env setup input o)
  unfolding after_existing process_new
  after_existing-Unwritten (some t) message h = search (within_rules, Unwritten-frame)
  after_existing-Unwritten none message h = rw h (search (within_rules, Unwritten-frame))

  execute-Unwritten :
      (message : String)
      → validate input ≡ some message
      → Within Unwritten (execute env setup input)
  unfolding execute
  execute-Unwritten message h =
      Within-bind Unwritten-frame _ _ (find_existing-Unwritten _)
        λ o. after_existing-Unwritten o message h

-- An input below the minimum amount, or without the CPF that its method needs, writes nothing,
-- charges nothing and reaches no provider: only the count of calls may change.
pub process_refuses_invalid :
    (env : Env) (setup : Setup) (input : ProcessPaymentInput) (w : World) (message : String)
    → validate input ≡ some message
    → let w' = (execute env setup input w).1 in record w' { calls = 0 } ≡ record w { calls = 0 }
process_refuses_invalid env setup input w message h =
    ((execute-Unwritten env setup input message h).at w).same
