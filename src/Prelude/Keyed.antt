-- ===== src/Prelude/Keyed.antt =====
-- Lists of documents with a text as their key.
use Prim.Native.String.{String}
use mathlib.Core.Path.{◌≡◌, refl}
use mathlib.Core.Logic.{inl, inr}
use mathlib.Core.Bool.{Bool, true, false}
use mathlib.Core.Option.{some}
use mathlib.Core.List.{List, [], ◌∷◌, ◌++◌}
use native.Mathlib.Omega.{arith}
use text.Mathlib.Text.{◌==◌}
use text.Mathlib.TextEquality.{eq_iff}
use text.Mathlib.TextPositions.{eq_refl}
use backend_go_role_organiza.Prelude.Tests.{if◌then◌else◌, Bool-cases}
use backend_go_role_organiza.Prelude.Lists.{find, any, update_first}

module _ {ℓ} {A : Type ℓ} where
  abbrev pub drop_first : (A → Bool) → List A → List A
  drop_first p [] = []
  drop_first p (x ∷ xs) = if p x then xs else x ∷ drop_first p xs

  pub any-find : (p : A → Bool) (xs : List A) (d : A) → find p xs ≡ some d → any p xs ≡ true
  any-find p [] d h = absurd (ground (arith, h))
  any-find p (x ∷ xs) d h = ground (arith, h, any-find p xs d)

  pub find-any : (p : A → Bool) (xs : List A) → any p xs ≡ true → (d : A) × (find p xs ≡ some d)
  find-any p [] h = absurd (ground (arith, h))
  find-any p (x ∷ xs) h = elim (Bool-cases (p x)) [
    | inl hit ↦ rw hit (x, refl)
    | inr miss ↦ rw miss (find-any p xs (ground (arith, h, miss)))
  ]

  pub find_sound : (p : A → Bool) (xs : List A) (d : A) → find p xs ≡ some d → p d ≡ true
  find_sound p [] d h = absurd (ground (arith, h))
  find_sound p (x ∷ xs) d h = ground (arith, h, find_sound p xs d)

  pub find-append :
      (p : A → Bool) (xs ys : List A) (d : A) → find p xs ≡ some d → find p (xs ++ ys) ≡ some d
  find-append p [] ys d h = absurd (ground (arith, h))
  find-append p (x ∷ xs) ys d h = ground (arith, h, find-append p xs ys d)

  pub find-append_new :
      (p : A → Bool) (xs : List A) (d : A)
      → any p xs ≡ false
      → p d ≡ true
      → find p (xs ++ d ∷ []) ≡ some d
  find-append_new p [] d h k = ground (arith, k)
  find-append_new p (x ∷ xs) d h k = ground (arith, h, k, find-append_new p xs d)

  -- The update meets the element that the search finds.
  pub find-update_first :
      (p : A → Bool) (f : A → A) (xs : List A) (d : A)
      → ((x : A) → p x ≡ true → p (f x) ≡ true)
      → find p xs ≡ some d
      → find p (update_first p f xs) ≡ some (f d)
  find-update_first p f [] d k h = absurd (ground (arith, h))
  find-update_first p f (x ∷ xs) d k h = elim (Bool-cases (p x)) [
    | inl hit ↦ ground (arith, hit, h, k x hit)
    | inr miss ↦ ground (arith, miss, h, find-update_first p f xs d k)
  ]

  pub find-update_other :
      (p q : A → Bool) (f : A → A) (xs : List A)
      → ((x : A) → p (f x) ≡ p x)
      → ((x : A) → q x ≡ true → p x ≡ false)
      → find p (update_first q f xs) ≡ find p xs
  find-update_other p q f [] k n = refl
  find-update_other p q f (x ∷ xs) k n = ground (arith, k x, n x, find-update_other p q f xs k n)

  pub find-drop_other :
      (p q : A → Bool) (xs : List A)
      → ((x : A) → q x ≡ true → p x ≡ false)
      → find p (drop_first q xs) ≡ find p xs
  find-drop_other p q [] n = refl
  find-drop_other p q (x ∷ xs) n = ground (arith, n x, find-drop_other p q xs n)

-- Two keys that differ select no common element.
pub keys-differ : (k i j : String) → (i == j) ≡ false → (k == j) ≡ true → (k == i) ≡ false
keys-differ k i j n h = elim (Bool-cases (k == i)) [
  | inl same ↦
      absurd (ground (arith, n, (eq_iff k j).0 h, (eq_iff k i).0 same, eq_refl i, eq_refl j))
  | inr differ ↦ differ
]

pub eq_false_sym : (s t : String) → (s == t) ≡ false → (t == s) ≡ false
eq_false_sym s t h = elim (Bool-cases (t == s)) [
  | inl same ↦ absurd (ground (arith, h, eq_refl s, (eq_iff t s).0 same))
  | inr differ ↦ differ
]
