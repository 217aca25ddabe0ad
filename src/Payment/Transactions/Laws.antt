-- ===== src/Payment/Transactions/Laws.antt =====
-- Lookup and replacement in the collection of transactions.
use backend_go_role_organiza.Prelude.{
  String, eq_iff, eq_refl, ◌≡◌, ◌≢◌, refl, Bool, true, false, some, List, [], ◌∷◌, find, any, arith,
}
use backend_go_role_organiza.Payment.Domain.{PaymentTransaction}
use backend_go_role_organiza.Payment.Transactions.{has_id, lookup, replace_doc}

-- No two documents share an identifier: the index on `_id`.
abbrev pub IsUnique : List PaymentTransaction → Type 0
IsUnique [] = Unit
IsUnique (t ∷ ts) = (any (has_id t.id) ts ≡ false) × IsUnique ts

pub any-replace_doc :
    (k : String) (t : PaymentTransaction) (ts : List PaymentTransaction)
    → any (has_id k) (replace_doc t ts) ≡ any (has_id k) ts
any-replace_doc k t [] = refl
any-replace_doc k t (u ∷ ts) = ground (arith, any-replace_doc k t ts, eq_iff u.id t.id)

pub replace_doc-IsUnique :
    (t : PaymentTransaction) (ts : List PaymentTransaction)
    → IsUnique ts
    → IsUnique (replace_doc t ts)
replace_doc-IsUnique t [] h = tt
replace_doc-IsUnique t (u ∷ ts) h =
    ground (arith, replace_doc-IsUnique t ts h.1, any-replace_doc u.id t ts, eq_iff u.id t.id)

pub lookup-replace_doc_ne :
    (j : String) (t : PaymentTransaction) (ts : List PaymentTransaction)
    → t.id ≢ j
    → lookup j (replace_doc t ts) ≡ lookup j ts
lookup-replace_doc_ne j t [] ne = refl
lookup-replace_doc_ne j t (u ∷ ts) ne =
    ground (arith, lookup-replace_doc_ne j t ts ne, eq_iff u.id t.id, eq_iff t.id j)

pub lookup-replace_doc_self :
    (t : PaymentTransaction) (ts : List PaymentTransaction) (u : PaymentTransaction)
    → lookup t.id ts ≡ some u
    → lookup t.id (replace_doc t ts) ≡ some t
lookup-replace_doc_self t [] v h = cc
lookup-replace_doc_self t (u ∷ ts) v h =
    ground (arith, lookup-replace_doc_self t ts v, eq_iff u.id t.id, eq_refl t.id)

pub any_of_lookup :
    (j : String) (ts : List PaymentTransaction) (u : PaymentTransaction)
    → lookup j ts ≡ some u
    → any (has_id j) ts ≡ true
any_of_lookup j [] v h = cc
any_of_lookup j (u ∷ ts) v h = ground (arith, any_of_lookup j ts v)

-- What a search by another field returns is what a lookup by its identifier returns.
pub lookup_of_find :
    (p : PaymentTransaction → Bool) (ts : List PaymentTransaction) (t : PaymentTransaction)
    → IsUnique ts
    → find p ts ≡ some t
    → lookup t.id ts ≡ some t
lookup_of_find p [] t h e = cc
lookup_of_find p (u ∷ ts) t h e =
    ground (arith, lookup_of_find p ts t h.1, any_of_lookup u.id ts t, eq_iff u.id t.id)
