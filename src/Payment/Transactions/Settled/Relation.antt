-- ===== src/Payment/Transactions/Settled/Relation.antt =====
-- A transaction that has reached a final status is never changed again: the relation `Settles`
-- between the worlds before and after a call, and the rules that prove it of a call which loads a
-- transaction, tests it and writes it back.
use backend_go_role_organiza.Prelude.{
  String, ◌≡◌, refl, ◌∙◌, true, false, some, List, arith, eq_iff, Bool-cases, inl, inr, ◌==◌,
}
use backend_go_role_organiza.Payment.Domain.{PaymentTransaction, is_terminal}
use backend_go_role_organiza.World.{World, modify, Action}
use backend_go_role_organiza.World.Within.{IsFrame, Within}
use backend_go_role_organiza.Payment.Transactions.{lookup, replace_doc}
use backend_go_role_organiza.Payment.Transactions.Laws.{IsUnique, lookup-replace_doc_ne}

-- The transactions, the recorded webhook events and the accepted charges are untouched.
pub record SameRecords (w w' : World) : Type 0 where
  pub same : w'.transactions ≡ w.transactions
  pub same_events : w'.webhook_events ≡ w.webhook_events
  pub same_charges : w'.charges ≡ w.charges

pub SameRecords-frame : IsFrame SameRecords
SameRecords-frame = record {
  rel_refl = λ w. record { same = refl; same_events = refl; same_charges = refl };
  rel_trans = λ u v w h k. record {
    same = k.same ∙ h.same;
    same_events = k.same_events ∙ h.same_events;
    same_charges = k.same_charges ∙ h.same_charges;
  };
  rel_tick = λ w. record { same = refl; same_events = refl; same_charges = refl };
}

-- Identifiers stay unique, and a stored transaction with a final status stays as it is.
pub record Settles (w w' : World) : Type 0 where
  pub unique : IsUnique w.transactions → IsUnique w'.transactions
  pub frozen :
      (j : String) (t : PaymentTransaction)
      → IsUnique w.transactions
      → lookup j w.transactions ≡ some t
      → is_terminal t ≡ true
      → lookup j w'.transactions ≡ some t

pub Settles-frame : IsFrame Settles
Settles-frame = record {
  rel_refl = λ w. record { unique = λ u. u; frozen = λ j t u e f. e };
  rel_trans = λ a b c h k. record {
    unique = λ u. k.unique (h.unique u);
    frozen = λ j t u e f. k.frozen j t (h.unique u) (h.frozen j t u e f) f;
  };
  rel_tick = λ w. record { unique = λ u. u; frozen = λ j t u e f. e };
}

pub Settles-of_same : (w w' : World) → w'.transactions ≡ w.transactions → Settles w w'
Settles-of_same w w' e = record { unique = λ u. rw e u; frozen = λ j t u l f. rw e l }

pub Settles-modify :
    (f : World → World)
    → ((w : World) → (f w).transactions ≡ w.transactions)
    → Within Settles (modify f)
unfolding modify
Settles-modify f h = record { at = λ w. Settles-of_same w (f w) (h w) }

module _ {A : Type 0} where
  pub Settles-of-SameRecords : (m : Action A) → Within SameRecords m → Within Settles m
  Settles-of-SameRecords m h = record { at = λ w. Settles-of_same w (m w).1 (h.at w).same }

-- Writing over a stored transaction whose status is not final.
pub replace_doc_settles :
    (tx u : PaymentTransaction) (ts : List PaymentTransaction) (j : String) (t : PaymentTransaction)
    → lookup tx.id ts ≡ some u
    → is_terminal u ≡ false
    → lookup j ts ≡ some t
    → is_terminal t ≡ true
    → lookup j (replace_doc tx ts) ≡ some t
replace_doc_settles tx u ts j t stored live l f = elim (Bool-cases (tx.id == j)) [
  | inl same ↦
      let e : tx.id ≡ j = (eq_iff tx.id j).0 same in
      let both : some u ≡ some t = rw (← stored) (rw e l) in absurd (ground (arith, both))
  | inr other ↦ lookup-replace_doc_ne j tx ts (λ e. ground (arith, (eq_iff tx.id j).1 e)) ∙ l
]
