-- ===== src/World/Within.antt =====
-- Relations between the world before a call and the world after it, one rule for each way to build
-- an action.
use backend_go_role_organiza.Prelude.{
  ℕ, String, ◌≡◌, refl, Bool, true, false, Option, none, some, if◌then◌else◌,
}
use backend_go_role_organiza.ApiErr.{Error, plain}
use backend_go_role_organiza.World.Outside.{World, Env}
use backend_go_role_organiza.World.Monad.{
  Result, ok, err, Action, pure, raise, gets, attempt, context, or_raise, ◌>>=◌, either, raise_if,
  ignore, tick, when, time_now, new_uuid, new_object_id, uuid_binary, driver, request, request_or,
  on_reply,
}

-- Reflexive, transitive, and blind to the count of calls.
pub record IsFrame (R : World → World → Type 0) : Type 0 where
  pub rel_refl : (w : World) → R w w
  pub rel_trans : (u v w : World) → R u v → R v w → R u w
  pub rel_tick : (w : World) → R w (tick w)

-- Whatever `m` returns, it leads from a world to one that `R` relates to it.
pub record Within (R : World → World → Type 0) {A : Type 0} (m : Action A) : Type 0 where
  pub at : (w : World) → R w (m w).1

module _ {R : World → World → Type 0} (frame : IsFrame R) where
  module _ {A : Type 0} where
    pub Within-pure : (a : A) → Within R (pure a)
    unfolding pure
    Within-pure a = record { at = λ w. frame.rel_refl w }

    pub Within-raise : (e : Error) → Within R (raise {A = A} e)
    unfolding raise
    Within-raise e = record { at = λ w. frame.rel_refl w }

    pub Within-gets : (f : World → A) → Within R (gets f)
    unfolding gets
    Within-gets f = record { at = λ w. frame.rel_refl w }

    pub Within-attempt : (m : Action A) → Within R m → Within R (attempt m)
    unfolding attempt
    Within-attempt m h = record { at = λ w. h.at w }

    pub Within-ignore : (m : Action A) → Within R m → Within R (ignore m)
    unfolding ignore
    Within-ignore m h = record { at = λ w. h.at w }

    pub Within-context : (s : String) (m : Action A) → Within R m → Within R (context s m)
    unfolding context
    Within-context s m h = record { at = λ w. h.at w }

    pub Within-or_raise : (o : Option A) (e : Error) → Within R (or_raise o e)
    unfolding or_raise
    Within-or_raise none e = record { at = λ w. frame.rel_refl w }
    Within-or_raise (some a) e = record { at = λ w. frame.rel_refl w }

    pub Within-if :
        (b : Bool) (m n : Action A) → Within R m → Within R n → Within R (if b then m else n)
    Within-if true m n hm hn = hm
    Within-if false m n hm hn = hn

    pub Within-request : (env : Env) (reply : ℕ → Option A) → Within R (request env reply)
    unfolding request
    Within-request env reply = record {
      at = λ w.
          frame.rel_trans _ _ _ (frame.rel_tick w)
            ((Within-or_raise (reply w.calls) (plain (env.reason w.calls))).at (tick w));
    }

  pub Within-raise_if : (b : Bool) (e : Error) → Within R (raise_if b e)
  unfolding raise_if
  Within-raise_if true e = record { at = λ w. frame.rel_refl w }
  Within-raise_if false e = record { at = λ w. frame.rel_refl w }

  pub Within-when : (b : Bool) (m : Action (Unit {0})) → Within R m → Within R (when b m)
  unfolding when
  Within-when true m h = h
  Within-when false m h = record { at = λ w. frame.rel_refl w }

  pub Within-time_now : (env : Env) → Within R (time_now env)
  unfolding time_now
  Within-time_now env = record { at = λ w. frame.rel_tick w }

  pub Within-new_uuid : (env : Env) → Within R (new_uuid env)
  unfolding new_uuid
  Within-new_uuid env = record { at = λ w. frame.rel_tick w }

  pub Within-new_object_id : (env : Env) → Within R (new_object_id env)
  unfolding new_object_id
  Within-new_object_id env = record { at = λ w. frame.rel_tick w }

  pub Within-uuid_binary : (env : Env) (s : String) → Within R (uuid_binary env s)
  unfolding uuid_binary
  Within-uuid_binary env s = record { at = λ w. frame.rel_tick w }

  pub Within-driver : (env : Env) (f : String → Error) → Within R (driver env f)
  unfolding driver
  Within-driver env f = record {
    at = λ w.
        frame.rel_trans _ _ _ (frame.rel_tick w)
          ((Within-raise_if (env.fails w.calls) (f (env.reason w.calls))).at (tick w));
  }

  module _ {A B : Type 0} where
    pub Within-either :
        (r : Result A) (f : A → Action B) (g : Error → Action B)
        → ((a : A) → Within R (f a))
        → ((e : Error) → Within R (g e))
        → Within R (either r f g)
    unfolding either
    Within-either (ok a) f g hf hg = hf a
    Within-either (err e) f g hf hg = hg e

    pub Within-bind :
        (m : Action A) (f : A → Action B)
        → Within R m
        → ((a : A) → Within R (f a))
        → Within R (m >>= f)
    unfolding ◌>>=◌
    Within-bind m f hm hf = record {
      at = λ w.
          frame.rel_trans _ _ _ (hm.at w)
            ((Within-either (m w).0 f raise hf Within-raise).at (m w).1);
    }

    either-related :
        (r : Result A) (f : A → Action B) (w : World)
        → ((a : A) → r ≡ ok a → R w (f a w).1)
        → R w (either r f raise w).1
    unfolding either raise
    either-related (ok a) f w h = h a refl
    either-related (err e) f w h = frame.rel_refl w

    -- A bind from one world: the second action has to be related only where the first returned.
    pub related-bind_from :
        (m : Action A) (f : A → Action B) (w : World)
        → R w (m w).1
        → ((a : A) → (m w).0 ≡ ok a → R (m w).1 (f a (m w).1).1)
        → R w ((m >>= f) w).1
    unfolding ◌>>=◌
    related-bind_from m f w hm hf = frame.rel_trans _ _ _ hm (either-related (m w).0 f (m w).1 hf)

    pub Within-bind_from :
        (m : Action A) (f : A → Action B)
        → Within R m
        → ((w : World) (a : A) → (m w).0 ≡ ok a → R (m w).1 (f a (m w).1).1)
        → Within R (m >>= f)
    Within-bind_from m f hm hf = record { at = λ w. related-bind_from m f w (hm.at w) (hf w) }

    -- The first action from one world, and the second from every world.
    pub related-bind :
        (m : Action A) (f : A → Action B) (w : World)
        → R w (m w).1
        → ((a : A) → Within R (f a))
        → R w ((m >>= f) w).1
    related-bind m f w hm hf = related-bind_from m f w hm (λ a e. (hf a).at (m w).1)

    on_reply-related :
        (env : Env) (o : Option A) (f : A → Action B) (g : String → Action B) (w : World)
        → ((a : A) → Within R (f a))
        → ((s : String) → Within R (g s))
        → R (tick w) (on_reply env o f g w).1
    unfolding on_reply
    on_reply-related env none f g w hf hg = (hg (env.reason w.calls)).at (tick w)
    on_reply-related env (some a) f g w hf hg = (hf a).at (tick w)

    pub Within-request_or :
        (env : Env) (reply : ℕ → Option A) (f : A → Action B) (g : String → Action B)
        → ((a : A) → Within R (f a))
        → ((s : String) → Within R (g s))
        → Within R (request_or env reply f g)
    unfolding request_or
    Within-request_or env reply f g hf hg = record {
      at = λ w.
          frame.rel_trans _ _ _ (frame.rel_tick w)
            (on_reply-related env (reply w.calls) f g w hf hg);
    }

pub ruleset within_rules = (
  Within-pure, Within-raise, Within-gets, Within-attempt, Within-ignore, Within-context,
  Within-or_raise, Within-if, Within-request, Within-raise_if, Within-when, Within-time_now,
  Within-new_uuid, Within-new_object_id, Within-uuid_binary, Within-driver, Within-request_or,
  Within-either, Within-bind,
)
