-- ===== src/World/Inversion.antt =====
-- What it takes for a chain of calls to return a value.
use backend_go_role_organiza.Prelude.{String, ◌≡◌, refl, ap, Bool, true, false, not, arith}
use backend_go_role_organiza.ApiErr.{Error}
use backend_go_role_organiza.World.Outside.{World}
use backend_go_role_organiza.World.Monad.{
  Result, ok, err, Action, raise, either, wrap, context, ◌>>=◌, raise_if,
}

module _ {A B : Type 0} where
  either-eq-ok :
      (r : Result A) (f : A → Action B) (w : World) (b : B)
      → (either r f raise w).0 ≡ ok b
      → (a : A) × (r ≡ ok a) × ((f a w).0 ≡ ok b)
  unfolding either raise
  either-eq-ok (ok a) f w b e = (a, refl, e)
  either-eq-ok (err x) f w b e = absurd (ground (arith, e))

  -- Each call of a chain returned a value.
  pub bind-eq-ok :
      (m : Action A) (f : A → Action B) (w : World) (b : B)
      → ((m >>= f) w).0 ≡ ok b
      → (a : A) × ((m w).0 ≡ ok a) × ((f a (m w).1).0 ≡ ok b)
  unfolding ◌>>=◌
  bind-eq-ok m f w b e = either-eq-ok (m w).0 f (m w).1 b e

  -- A bind whose first action returned goes on from there.
  pub bind-ok :
      (m : Action A) (f : A → Action B) (w : World) (a : A)
      → (m w).0 ≡ ok a
      → (m >>= f) w ≡ f a (m w).1
  unfolding ◌>>=◌ either
  bind-ok m f w a e = rw e refl

module _ {A : Type 0} where
  wrap-eq-ok : (s : String) (r : Result A) (a : A) → wrap s r ≡ ok a → r ≡ ok a
  unfolding wrap
  wrap-eq-ok s (ok b) a e = e
  wrap-eq-ok s (err x) a e = absurd (ground (arith, e))

  pub context-eq-ok :
      (s : String) (m : Action A) (w : World) (a : A) → (context s m w).0 ≡ ok a → (m w).0 ≡ ok a
  unfolding context
  context-eq-ok s m w a e = wrap-eq-ok s (m w).0 a e

  value_or : A → Result A → A
  value_or d (ok a) = a
  value_or d (err x) = d

  pub ok_inj : {a b : A} → Path (Result A) (ok a) (ok b) → a ≡ b
  unfolding value_or
  ok_inj {a} e = ap (value_or a) e

pub raise_if-passes :
    (b : Bool) (e : Error) (w : World) → (raise_if (not b) e w).0 ≡ ok tt → b ≡ true
unfolding raise_if
raise_if-passes true e w h = refl
raise_if-passes false e w h = absurd (ground (arith, h))

pub raise_if-skips : (b : Bool) (e : Error) (w : World) → (raise_if b e w).0 ≡ ok tt → b ≡ false
unfolding raise_if
raise_if-skips false e w h = refl
raise_if-skips true e w h = absurd (ground (arith, h))

-- A guard that passes leaves the world as it is.
pub raise_if-world : (b : Bool) (e : Error) (w : World) → b ≡ false → raise_if b e w ≡ (ok tt, w)
unfolding raise_if
raise_if-world false e w h = refl
raise_if-world true e w h = absurd (ground (arith, h))
