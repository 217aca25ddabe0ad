-- ===== src/Social/Roles/Refused.antt =====
-- A use case that begins with a check of the user's role does nothing for a user without it.
use backend_go_role_organiza.Prelude.{
  String, ◌≡◌, refl, sym, ◌∙◌, ap, Bool, true, false, not, ◌||◌, find, any, arith, Bool-cases,
  Option-cases, inl, inr, if◌then◌else◌,
}
use backend_go_role_organiza.ApiErr.{Error, forbidden}
use backend_go_role_organiza.World.{
  World, Env, Action, Result, ok, err, context, ◌>>=◌, ◌>>◌, either, raise, raise_if, pure, gets,
  or_raise, driver,
}
use backend_go_role_organiza.World.Within.{IsFrame, Within, within_rules}
use backend_go_role_organiza.World.Inversion.{bind-eq-ok, context-eq-ok, ok_inj, raise_if-passes}
use backend_go_role_organiza.Social.Auth.{
  has_id, find_evento_document, fase_at_least, is_organizador, count_confirmed, is_confirmed,
  is_participante_confirmado_ou_organizador,
}
use backend_go_role_organiza.Social.Requests.{organizes, takes_part, is_responsavel}
use backend_go_role_organiza.Social.Domain.{fase_aguardando_aceite}
use backend_go_role_organiza.Social.UseCases.{as_organizador, as_participante}

-- The collections that the checks read, and the social features.
pub record SameSocial (w w' : World) : Type 0 where
  pub same_eventos : w'.eventos ≡ w.eventos
  pub same_participants : w'.participants ≡ w.participants
  pub same_features : w'.social_features ≡ w.social_features

pub SameSocial-frame : IsFrame SameSocial
SameSocial-frame = record {
  rel_refl = λ w. record { same_eventos = refl; same_participants = refl; same_features = refl };
  rel_trans = λ u v w h k. record {
    same_eventos = k.same_eventos ∙ h.same_eventos;
    same_participants = k.same_participants ∙ h.same_participants;
    same_features = k.same_features ∙ h.same_features;
  };
  rel_tick = λ w. record { same_eventos = refl; same_participants = refl; same_features = refl };
}

-- `m` leaves the social features alone where `allowed` does not hold.
pub record Refuses (allowed : World → Bool) {A : Type 0} (m : Action A) : Type 0 where
  pub at : (w : World) → allowed w ≡ false → (m w).1.social_features ≡ w.social_features

module _ {A : Type 0} where
  pub Refuses-raise_if :
      (allowed : World → Bool) (b : Bool) (e : Error) (m : Action A)
      → Refuses allowed m
      → Refuses allowed (raise_if b e >> m)
  unfolding raise_if ◌>>=◌ either raise
  Refuses-raise_if allowed true e m h = record { at = λ w d. refl }
  Refuses-raise_if allowed false e m h = record { at = λ w d. h.at w d }

  either-stays :
      (r : Result (Unit {0})) (f : Unit {0} → Action A) (w : World) (b : Bool)
      → (r ≡ ok tt → b ≡ true)
      → b ≡ false
      → (either r f raise w).1.social_features ≡ w.social_features
  unfolding either raise
  either-stays (ok x) f w b p d = absurd (ground (arith, d, p refl))
  either-stays (err x) f w b p d = refl

  -- A check that returns only where the user is allowed.
  Refuses-check :
      (allowed : World → Bool) (check : Action (Unit {0})) (f : Unit {0} → Action A)
      → Within SameSocial check
      → ((w : World) → (check w).0 ≡ ok tt → allowed w ≡ true)
      → Refuses allowed (check >>= f)
  unfolding ◌>>=◌
  Refuses-check allowed check f same passes = record {
    at = λ w d.
        either-stays (check w).0 f (check w).1 (allowed w) (passes w) d ∙ (same.at w).same_features;
  }

module _ (env : Env) (e u : String) where
  as_organizador-same : (s : String) → Within SameSocial (as_organizador env s e u)
  unfolding as_organizador fase_at_least is_organizador find_evento_document
  as_organizador-same s = search (within_rules, SameSocial-frame) depth 9

  pub as_participante-same : (s : String) → Within SameSocial (as_participante env s e u)
  unfolding as_participante fase_at_least is_participante_confirmado_ou_organizador is_organizador
      find_evento_document count_confirmed
  as_participante-same s = search (within_rules, SameSocial-frame) depth 9

  is_organizador-answers :
      (w : World) (b : Bool) → (is_organizador env e u w).0 ≡ ok b → organizes e u w ≡ b
  unfolding is_organizador find_evento_document organizes driver raise_if gets or_raise ◌>>=◌ either
      raise pure
  is_organizador-answers w b = elim (Bool-cases (env.fails w.calls)) [
    | inl down ↦ rw down (λ h. absurd (ground (arith, h)))
    | inr up ↦ rw up (elim (Option-cases (find (has_id e) w.eventos)) [
      | inl missing ↦ rw missing (λ h. absurd (ground (arith, h)))
      | inr (ev, found) ↦ rw found (λ h. ok_inj h)
    ])
  ]

  fase_at_least-same : (fase : String) → Within SameSocial (fase_at_least env e fase)
  unfolding fase_at_least find_evento_document
  fase_at_least-same fase = search (within_rules, SameSocial-frame) depth 9

  organizes-same : (w w' : World) → SameSocial w w' → organizes e u w' ≡ organizes e u w
  unfolding organizes
  organizes-same w w' h = ap (λ es. is_responsavel u (find (has_id e) es)) h.same_eventos

  takes_part-same : (w w' : World) → SameSocial w w' → takes_part e u w' ≡ takes_part e u w
  unfolding takes_part
  takes_part-same w w' h =
      rw (organizes-same w w' h)
        (ap (λ ps. organizes e u w || any (is_confirmed e u) ps) h.same_participants)

  count_confirmed-answers :
      (w : World) (b : Bool)
      → (count_confirmed env e u w).0 ≡ ok b
      → any (is_confirmed e u) w.participants ≡ b
  unfolding count_confirmed driver raise_if gets ◌>>=◌ either raise
  count_confirmed-answers w b = elim (Bool-cases (env.fails w.calls)) [
    | inl down ↦ rw down (λ h. absurd (ground (arith, h)))
    | inr up ↦ rw up (λ h. ok_inj h)
  ]

  is_organizador-same : Within SameSocial (is_organizador env e u)
  unfolding is_organizador find_evento_document
  is_organizador-same = search (within_rules, SameSocial-frame) depth 9

  confirmed_otherwise :
      (o b : Bool) (w w' : World)
      → SameSocial w w'
      → organizes e u w ≡ o
      → ((if o then pure true else count_confirmed env e u) w').0 ≡ ok b
      → takes_part e u w ≡ b
  unfolding takes_part pure
  confirmed_otherwise true b w w' same org h = rw org (ok_inj h)
  confirmed_otherwise false b w w' same org h = rw org (
      sym (ap (λ ps. any (is_confirmed e u) ps) same.same_participants)
      ∙ count_confirmed-answers w' b h)

  is_participante-answers :
      (w : World) (b : Bool)
      → (is_participante_confirmado_ou_organizador env e u w).0 ≡ ok b
      → takes_part e u w ≡ b
  unfolding is_participante_confirmado_ou_organizador
  is_participante-answers w b h =
      let (o, first, rest) = bind-eq-ok (is_organizador env e u) _ w b h in
      confirmed_otherwise o b w _ (is_organizador-same.at w) (is_organizador-answers w o first) rest

  -- The answer to the question that a use case asks after the phase of the event.
  asked_after_fase :
      (s : String) (ask : Action Bool) (w : World)
      → (((fase_at_least env e fase_aguardando_aceite) >>= λ _.
            context s ask >>= λ b. raise_if (not b) (forbidden "FORBIDDEN"))
          w).0
        ≡ ok tt
      → (w' : World) × SameSocial w w' × ((ask w').0 ≡ ok true)
  asked_after_fase s ask w h =
      let m = fase_at_least env e fase_aguardando_aceite in
      let (_, fase, rest) = bind-eq-ok m _ w tt h in
      let (b, asked, raised) = bind-eq-ok (context s ask) _ (m w).1 tt rest in
      (
        (m w).1,
        (fase_at_least-same fase_aguardando_aceite).at w,
        context-eq-ok s ask _ b asked ∙ ap ok (raise_if-passes b _ _ raised),
      )

  as_organizador-passes :
      (s : String) (w : World) → (as_organizador env s e u w).0 ≡ ok tt → organizes e u w ≡ true
  unfolding as_organizador
  as_organizador-passes s w h =
      let (w', same, answer) = asked_after_fase s (is_organizador env e u) w h in
      sym (organizes-same w w' same) ∙ is_organizador-answers w' true answer

  as_participante-passes :
      (s : String) (w : World) → (as_participante env s e u w).0 ≡ ok tt → takes_part e u w ≡ true
  unfolding as_participante
  as_participante-passes s w h =
      let (w', same, answer) =
        asked_after_fase s (is_participante_confirmado_ou_organizador env e u) w h in
      sym (takes_part-same w w' same) ∙ is_participante-answers w' true answer

  pub Refuses-as_organizador :
      {A : Type 0} (s : String) (f : Unit {0} → Action A)
      → Refuses (organizes e u) (as_organizador env s e u >>= f)
  Refuses-as_organizador s f = Refuses-check _ _ f (as_organizador-same s) (as_organizador-passes s)

  pub Refuses-as_participante :
      {A : Type 0} (s : String) (f : Unit {0} → Action A)
      → Refuses (takes_part e u) (as_participante env s e u >>= f)
  Refuses-as_participante s f =
      Refuses-check _ _ f (as_participante-same s) (as_participante-passes s)
