-- ===== src/Payment/Transactions/Settled/Rules.antt =====
-- Rules that prove `Settles` of a call which loads a transaction, tests its status and writes it
-- back.
use backend_go_role_organiza.Prelude.{
  String, ◌==◌, ◌≡◌, refl, Bool, true, false, none, some, Option, Bool-cases, inl, inr, find, arith,
  member, if◌then◌else◌,
}
use backend_go_role_organiza.ApiErr.{Error}
use backend_go_role_organiza.Payment.Domain.{PaymentTransaction, is_terminal}
use backend_go_role_organiza.World.{
  World, Env, Result, ok, err, Action, ◌>>=◌, either, raise, context, wrap, modify, pure, raise_if,
  driver, gets, or_raise, tick,
}
use backend_go_role_organiza.World.Within.{
  Within, Within-either, Within-raise, Within-raise_if, within_rules,
}
use backend_go_role_organiza.Payment.Transactions.{
  lookup, replace_doc, replace, update, find_by_id, find_by_provider_transaction_id, found_or_ref,
  find_by_installment_ref,
}
use backend_go_role_organiza.Payment.Transactions.Laws.{
  IsUnique, replace_doc-IsUnique, lookup_of_find,
}
use backend_go_role_organiza.Payment.Transactions.Settled.Quiet.{quiet_rules}
use backend_go_role_organiza.Payment.Transactions.Settled.Relation.{
  SameRecords, SameRecords-frame, Settles, Settles-frame, Settles-of_same, replace_doc_settles,
}

-- `m` settles where `t` is the stored transaction with its identifier.
pub record Under (t : PaymentTransaction) {A : Type 0} (m : Action A) : Type 0 where
  pub at : (w : World) → lookup t.id w.transactions ≡ some t → Settles w (m w).1

module _ (t : PaymentTransaction) where
  module _ {A : Type 0} where
    pub Under-Within : (m : Action A) → Within Settles m → Under t m
    Under-Within m h = record { at = λ w e. h.at w }

    pub Under-if :
        (b : Bool) (m n : Action A)
        → (b ≡ true → Under t m)
        → (b ≡ false → Under t n)
        → Under t (if b then m else n)
    Under-if true m n hm hn = hm refl
    Under-if false m n hm hn = hn refl

    pub Under-context : (s : String) (m : Action A) → Under t m → Under t (context s m)
    unfolding context
    Under-context s m h = record { at = λ w e. h.at w e }

  module _ {A B : Type 0} where
    pub Under-either :
        (r : Result A) (f : A → Action B) (g : Error → Action B)
        → ((a : A) → Under t (f a))
        → ((e : Error) → Under t (g e))
        → Under t (either r f g)
    unfolding either
    Under-either (ok a) f g hf hg = hf a
    Under-either (err e) f g hf hg = hg e

    -- The first step leaves the transactions alone.
    pub Under-bind :
        (m : Action A) (f : A → Action B)
        → Within SameRecords m
        → ((a : A) → Under t (f a))
        → Under t (m >>= f)
    unfolding ◌>>=◌
    Under-bind m f hm hf = record {
      at = λ w e. Settles-frame.rel_trans _ _ _ (Settles-of_same w (m w).1 (hm.at w).same) (
          (Under-either (m w).0 f raise hf
              (λ x. Under-Within (raise x) (Within-raise Settles-frame x))).at
            (m w).1 (rw (hm.at w).same e));
    }

    -- The steps after the write leave final transactions alone.
    pub Under-bind_write :
        (m : Action A) (f : A → Action B)
        → Under t m
        → ((a : A) → Within Settles (f a))
        → Under t (m >>= f)
    unfolding ◌>>=◌
    Under-bind_write m f hm hf = record {
      at = λ w e. Settles-frame.rel_trans _ _ _ (hm.at w e) (
          (Within-either Settles-frame (m w).0 f raise hf (Within-raise Settles-frame)).at (m w).1);
    }

  module _ (live : is_terminal t ≡ false) (tx : PaymentTransaction) (same_id : tx.id ≡ t.id) where
    Under-modify : Under t (modify (λ w. record w { transactions = replace_doc tx w.transactions }))
    unfolding modify
    Under-modify = record {
      at = λ w e. record {
        unique = replace_doc-IsUnique tx w.transactions;
        frozen = λ j u _ l f. replace_doc_settles tx t w.transactions j u (rw same_id e) live l f;
      };
    }

    pub Under-replace : (env : Env) → Under t (replace env tx)
    unfolding replace
    Under-replace env = Under-bind _ _ (search (within_rules, SameRecords-frame)) λ _.
        Under-bind _ _ (search (within_rules, SameRecords-frame))
          λ matched. Under-bind_write _ _ Under-modify (λ _. Within-raise_if Settles-frame _ _)

  pub Under-update :
      (env : Env) (tx : PaymentTransaction)
      → is_terminal t ≡ false
      → tx.id ≡ t.id
      → Under t (update env tx)
  unfolding update
  Under-update env tx live same_id =
      Under-bind _ _ (search (within_rules, SameRecords-frame))
        λ at. Under-replace live (record tx { updated_at = at }) same_id env

-- `m` leaves the transactions alone and returns a stored one.
pub record Loads (m : Action PaymentTransaction) : Type 0 where
  pub quiet : Within SameRecords m
  pub stored :
      (w : World) (t : PaymentTransaction)
      → IsUnique w.transactions
      → (m w).0 ≡ ok t
      → lookup t.id w.transactions ≡ some t

wrap-eq-ok :
    (s : String) (r : Result PaymentTransaction) (t : PaymentTransaction)
    → wrap s r ≡ ok t
    → r ≡ ok t
unfolding wrap
wrap-eq-ok s (ok u) t e = e
wrap-eq-ok s (err x) t e = cc

pub Loads-context : (s : String) (m : Action PaymentTransaction) → Loads m → Loads (context s m)
unfolding context
Loads-context s m l = record {
  quiet = record { at = λ w. l.quiet.at w };
  stored = λ w t u e. l.stored w t u (wrap-eq-ok s (m w).0 t e);
}

module _ {B : Type 0} (m : Action PaymentTransaction) (f : PaymentTransaction → Action B) where
  bind_loaded :
      Loads m
      → ((t : PaymentTransaction) → Under t (f t))
      → (w : World) → IsUnique w.transactions
      → Settles w ((m >>= f) w).1
  unfolding ◌>>=◌ either
  bind_loaded l hf w u =
      Settles-frame.rel_trans _ _ _ (Settles-of_same w (m w).1 (l.quiet.at w).same)
        (go (m w).0 refl)
    where
      go :
          (r : Result PaymentTransaction)
          → (m w).0 ≡ r
          → Settles (m w).1 (either r f raise (m w).1).1
      go (ok t) e = (hf t).at (m w).1 (rw (l.quiet.at w).same (l.stored w t u e))
      go (err x) e = (Within-raise Settles-frame {A = B} x).at (m w).1

  pub Within-load : Loads m → ((t : PaymentTransaction) → Under t (f t)) → Within Settles (m >>= f)
  Within-load l hf = record {
    at = λ w. record {
      unique = λ u. (bind_loaded l hf w u).unique u;
      frozen = λ j t u. (bind_loaded l hf w u).frozen j t u;
    };
  }

pub find_by_id-quiet : (env : Env) (id : String) → Within SameRecords (find_by_id env id)
unfolding find_by_id
find_by_id-quiet env id = search quiet_rules

find_by_id-stored :
    (env : Env) (id : String) (w : World) (t : PaymentTransaction)
    → IsUnique w.transactions
    → (find_by_id env id w).0 ≡ ok t
    → lookup t.id w.transactions ≡ some t
unfolding find_by_id ◌>>=◌ gets driver raise_if or_raise
find_by_id-stored env id w t u e =
    ground (arith, lookup_of_find (λ (x : PaymentTransaction). x.id == id) w.transactions t u)

pub find_by_id-Loads : (env : Env) (id : String) → Loads (find_by_id env id)
find_by_id-Loads env id = record {
  quiet = find_by_id-quiet env id;
  stored = find_by_id-stored env id;
}

found_or_ref-quiet :
    (env : Env) (ref : String) (o : Option PaymentTransaction)
    → Within SameRecords (found_or_ref env ref o)
unfolding found_or_ref
found_or_ref-quiet env ref none = search quiet_rules
found_or_ref-quiet env ref (some t) = search quiet_rules

pub find_by_provider_transaction_id-quiet :
    (env : Env) (id : String) → Within SameRecords (find_by_provider_transaction_id env id)
unfolding find_by_provider_transaction_id
find_by_provider_transaction_id-quiet env id = search (quiet_rules, found_or_ref-quiet)

find_by_installment_ref-stored :
    (env : Env) (ref : String) (w : World) (t : PaymentTransaction)
    → IsUnique w.transactions
    → (find_by_installment_ref env ref w).0 ≡ ok t
    → lookup t.id w.transactions ≡ some t
unfolding find_by_installment_ref ◌>>=◌ gets driver raise_if or_raise
find_by_installment_ref-stored env ref w t u e = ground (
  arith,
  lookup_of_find (λ (x : PaymentTransaction). member ref x.installment_ids) w.transactions t u,
)

found_or_ref-stored :
    (env : Env) (ref : String) (p : PaymentTransaction → Bool) (o : Option PaymentTransaction)
    (w : World) (t : PaymentTransaction)
    → IsUnique w.transactions
    → find p w.transactions ≡ o
    → (found_or_ref env ref o w).0 ≡ ok t
    → lookup t.id w.transactions ≡ some t
unfolding found_or_ref pure
found_or_ref-stored env ref p none w t u o e = find_by_installment_ref-stored env ref w t u e
found_or_ref-stored env ref p (some x) w t u o e =
    ground (arith, lookup_of_find p w.transactions t u)

find_by_provider_transaction_id-stored :
    (env : Env) (id : String) (w : World) (t : PaymentTransaction)
    → IsUnique w.transactions
    → (find_by_provider_transaction_id env id w).0 ≡ ok t
    → lookup t.id w.transactions ≡ some t
unfolding find_by_provider_transaction_id ◌>>=◌ gets driver raise_if
find_by_provider_transaction_id-stored env id w t u e = elim (Bool-cases (env.fails w.calls)) [
  | inl down ↦ cc (rw down at e)
  | inr up ↦
      found_or_ref-stored env id (λ x. x.provider_transaction_id == id) _ (tick w) t u refl
        (rw up at e)
]

pub find_by_provider_transaction_id-Loads :
    (env : Env) (id : String) → Loads (find_by_provider_transaction_id env id)
find_by_provider_transaction_id-Loads env id = record {
  quiet = find_by_provider_transaction_id-quiet env id;
  stored = find_by_provider_transaction_id-stored env id;
}
