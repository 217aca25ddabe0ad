-- ===== src/World/Monad.antt =====
-- A call that reads and writes the world and may fail. What was written before a failure stays
-- written, so the world comes back beside the error too.
use backend_go_role_organiza.Prelude.{ℕ, suc, String, Bool, true, false, not, Option, none, some}
use backend_go_role_organiza.ApiErr.{Error, wrapped, plain}
use backend_go_role_organiza.World.Outside.{World, Env}

pub data Result (A : Type 0) : Type 0 where
  ok : A → Result A
  err : Error → Result A

abbrev pub Action : Type 0 → Type 0
Action A = World → Result A × World

module _ {A : Type 0} where
  unfoldable pub pure : A → Action A
  pure a w = (ok a, w)

  unfoldable pub raise : Error → Action A
  raise e w = (err e, w)

  unfoldable pub gets : (World → A) → Action A
  gets f w = (ok (f w), w)

  -- `x, err := m` where both outcomes are handled: the outcome is a value.
  unfoldable pub attempt : Action A → Action (Result A)
  attempt m w = let (r, w') = m w in (ok r, w')

  -- `fmt.Errorf("context: %w", err)`
  unfoldable pub wrap : String → Result A → Result A
  wrap s (ok a) = ok a
  wrap s (err e) = err (wrapped s e)

  unfoldable pub context : String → Action A → Action A
  context s m w = let (r, w') = m w in (wrap s r, w')

  unfoldable pub or_raise : Option A → Error → Action A
  or_raise none e w = (err e, w)
  or_raise (some a) e w = (ok a, w)

module _ {A B : Type 0} where
  -- `if err != nil { … } else { … }`
  unfoldable pub either : Result A → (A → Action B) → (Error → Action B) → Action B
  either (ok a) f g = f a
  either (err e) f g = g e

  infixl 5 ◌>>=◌ ◌>>◌
  unfoldable pub ◌>>=◌ : Action A → (A → Action B) → Action B
  unfolding either raise
  ◌>>=◌ m f w = let (r, w') = m w in either r f raise w'

  abbrev pub ◌>>◌ : Action A → Action B → Action B
  m >> k = m >>= λ _. k

unfoldable pub modify : (World → World) → Action (Unit {0})
modify f w = (ok tt, f w)

unfoldable pub raise_if : Bool → Error → Action (Unit {0})
raise_if true e w = (err e, w)
raise_if false e w = (ok tt, w)

-- What is parsed, or else the other text.
abbrev pub parsed_or : Option String → String → String
parsed_or none other = other
parsed_or (some s) other = s

-- A warning is logged and the call goes on.
unfoldable pub ignore : {A : Type 0} → Action A → Action (Unit {0})
ignore m w = (ok tt, (m w).1)

abbrev pub tick : World → World
tick w = record w { calls = suc w.calls }

-- `if cond { m }`
unfoldable pub when : Bool → Action (Unit {0}) → Action (Unit {0})
when true m = m
when false m = λ w. (ok tt, w)

module _ (env : Env) where
  unfoldable pub time_now : Action ℕ
  time_now w = (ok (env.now w.calls), tick w)

  unfoldable pub new_uuid : Action String
  new_uuid w = (ok (env.uuid w.calls), tick w)

  unfoldable pub new_object_id : Action String
  new_object_id w = (ok (env.object_id w.calls), tick w)

  -- `UUIDStringToBinary`: a text that is no UUID becomes a random one. The number of the call is taken
  -- in both cases.
  unfoldable pub uuid_binary : String → Action String
  uuid_binary s w = (ok (parsed_or (env.parse_uuid s) (env.uuid w.calls)), tick w)

  -- A call of the database driver or of Temporal, which may fail before it has any effect.
  unfoldable pub driver : (String → Error) → Action (Unit {0})
  unfolding raise_if
  driver failure w = raise_if (env.fails w.calls) (failure (env.reason w.calls)) (tick w)

  -- A request to the payment provider.
  unfoldable pub request : {A : Type 0} → (ℕ → Option A) → Action A
  unfolding or_raise
  request reply w = or_raise (reply w.calls) (plain (env.reason w.calls)) (tick w)

  -- `InsertOne` under a unique index: false on a duplicate key, when nothing is written.
  unfoldable pub insert_unique : (String → Error) → (World → Bool) → (World → World) → Action Bool
  insert_unique failure clash add = do
    driver failure
    taken ← gets clash
    when (not taken) (modify add)
    pure (not taken)

  unfoldable pub on_reply :
      {A B : Type 0} → Option A → (A → Action B) → (String → Action B) → Action B
  on_reply none f g w = g (env.reason w.calls) (tick w)
  on_reply (some a) f g w = f a (tick w)

  -- A request to the payment provider whose failure is handled by its text.
  unfoldable pub request_or :
      {A B : Type 0} → (ℕ → Option A) → (A → Action B) → (String → Action B) → Action B
  unfolding on_reply
  request_or reply f g w = on_reply (reply w.calls) f g w
