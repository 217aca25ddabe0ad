-- ===== src/World/Leaves.antt =====
-- What holds of the world after a call that returned without error.
use backend_go_role_organiza.Prelude.{String, ◌≡◌}
use backend_go_role_organiza.World.Outside.{World}
use backend_go_role_organiza.World.Monad.{ok, Action, pure, ◌>>=◌, context}
use backend_go_role_organiza.World.Inversion.{bind-eq-ok, bind-ok, context-eq-ok}

pub record Leaves (Q : World → Type 0) {A : Type 0} (m : Action A) : Type 0 where
  pub after : (w : World) (a : A) → (m w).0 ≡ ok a → Q (m w).1

module _ {Q : World → Type 0} where
  module _ {A B : Type 0} where
    -- Only the last call matters, with what the first one returned.
    pub Leaves-bind_from :
        (m : Action A) (f : A → Action B)
        → ((w : World) (a : A) → (m w).0 ≡ ok a → Leaves Q (f a))
        → Leaves Q (m >>= f)
    Leaves-bind_from m f h = record {
      after = λ w b e.
          let (a, got, rest) = bind-eq-ok m f w b e in
          rw (bind-ok m f w a got) ((h w a got).after (m w).1 b rest);
    }

    pub Leaves-bind :
        (m : Action A) (f : A → Action B) → ((a : A) → Leaves Q (f a)) → Leaves Q (m >>= f)
    Leaves-bind m f h = Leaves-bind_from m f (λ w a e. h a)

    -- A call followed by the return of a value.
    pub Leaves-return : (m : Action A) (f : A → B) → Leaves Q m → Leaves Q (m >>= λ a. pure (f a))
    unfolding pure
    Leaves-return m f h = record {
      after = λ w b e.
          let (a, got, rest) = bind-eq-ok m (λ a. pure (f a)) w b e in
          rw (bind-ok m (λ a. pure (f a)) w a got) (h.after w a got);
    }

  pub Leaves-context :
      {A : Type 0} (s : String) (m : Action A) → Leaves Q m → Leaves Q (context s m)
  unfolding context
  Leaves-context s m h = record { after = λ w a e. h.after w a (context-eq-ok s m w a e) }

-- From a world where `P` holds, a call that returns without error leaves one where `Q` holds.
pub record Takes (P Q : World → Type 0) {A : Type 0} (m : Action A) : Type 0 where
  pub after : (w : World) → P w → (a : A) → (m w).0 ≡ ok a → Q (m w).1

module _ {A B : Type 0} where
  pub Takes-bind :
      {P Q R : World → Type 0} (m : Action A) (f : A → Action B)
      → Takes P R m
      → ((w : World) (a : A) → (m w).0 ≡ ok a → Takes R Q (f a))
      → Takes P Q (m >>= f)
  Takes-bind m f h k = record {
    after = λ w p b e.
        let (a, got, rest) = bind-eq-ok m f w b e in
        rw (bind-ok m f w a got) ((k w a got).after (m w).1 (h.after w p a got) b rest);
  }

  pub Takes-return :
      {P Q : World → Type 0} (m : Action A) (f : A → B)
      → Takes P Q m
      → Takes P Q (m >>= λ a. pure (f a))
  unfolding pure
  Takes-return m f h = record {
    after = λ w p b e.
        let (a, got, rest) = bind-eq-ok m (λ a. pure (f a)) w b e in
        rw (bind-ok m (λ a. pure (f a)) w a got) (h.after w p a got);
  }

pub Takes-context :
    {P Q : World → Type 0} {A : Type 0} (s : String) (m : Action A)
    → Takes P Q m
    → Takes P Q (context s m)
unfolding context
Takes-context s m h = record { after = λ w p a e. h.after w p a (context-eq-ok s m w a e) }
