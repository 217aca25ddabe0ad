-- ===== src/Rateio/Closing.antt =====
-- Closing a split: once, and for good.
use backend_go_role_organiza.Prelude.{
  ℕ, String, ◌≡◌, ◌≢◌, refl, sym, ap, subst, ◌∙◌, Bool, true, false, not, some, List, [], ◌∷◌, find,
  any, arith, Bool-cases, inl, inr, eq_iff, find-any, find_sound, find-update_first,
}
use backend_go_role_organiza.ApiErr.{Error}
use backend_go_role_organiza.Rateio.Domain.{
  Rateio, RateioDocument, RateioFechamento, rateio_can_edit,
}
use backend_go_role_organiza.Rateio.Repository.{
  status_to_mongo, rateio_doc_to_domain, is_rateio, set_rateio, write_rateio,
  find_rateios_of_evento, find_fechamentos, find_rateio,
}
use backend_go_role_organiza.Rateio.UseCases.{
  FecharParticipanteInput, get_rateio, create_rateio, list_rateios, delete_rateio, preview_rateio,
  get_fechamentos, close_with, fechar_rateio, closed_rateio, new_rateio,
}
use backend_go_role_organiza.Rateio.Requests.{
  RateioRequest, serve_rateio, serve_rateios, deletes_rateio,
}
use backend_go_role_organiza.Rateio.Frozen.{
  update_rateio-Freezes, fechar_rateio-Freezes, erase_rateio-Freezes, save_rateio-Freezes,
  can_edit-open,
}
use backend_go_role_organiza.Rateio.Loaded.{
  is_closed, Freezes, Freezes-frame, get_rateio-found, get_rateio-Freezes,
}
use backend_go_role_organiza.World.{
  World, Env, Action, ok, ◌>>=◌, ◌>>◌, either, raise, raise_if, driver, gets, modify, pure,
  time_now, tick,
}
use backend_go_role_organiza.World.Within.{
  IsFrame, Within, within_rules, Within-bind, related-bind_from,
}
use backend_go_role_organiza.World.Inversion.{bind-eq-ok, raise_if-passes}
use backend_go_role_organiza.World.Leaves.{Leaves, Leaves-bind, Leaves-bind_from, Leaves-return}

module _ (env : Env) (i : String) where
  serve_rateio-Freezes :
      (r : RateioRequest) (w : World)
      → deletes_rateio i r ≡ false
      → Freezes i w (serve_rateio env r w)
  unfolding serve_rateio deletes_rateio create_rateio list_rateios find_rateios_of_evento
      delete_rateio preview_rateio get_fechamentos find_fechamentos
  serve_rateio-Freezes (RateioRequest.create input) w n =
      (Within-bind (Freezes-frame i) _ _ (search (within_rules, Freezes-frame))
          (λ now. save_rateio-Freezes env i (new_rateio env.floats input now))).at
        w
  serve_rateio-Freezes (RateioRequest.get id user) w n = (get_rateio-Freezes env i id user).at w
  serve_rateio-Freezes (RateioRequest.list id user) w n =
      let h : Within (Freezes i) (list_rateios env id user) =
        search (within_rules, Freezes-frame) depth 9 in
      h.at w
  serve_rateio-Freezes (RateioRequest.delete id user) w n =
      (Within-bind (Freezes-frame i) _ _ (get_rateio-Freezes env i id user)
          (λ _. erase_rateio-Freezes env i id n)).at
        w
  serve_rateio-Freezes (RateioRequest.closings id user) w n =
      (Within-bind (Freezes-frame i) _ _ (get_rateio-Freezes env i id user)
          (λ _. search (within_rules, Freezes-frame) depth 9)).at
        w
  serve_rateio-Freezes (RateioRequest.update id user input) w n =
      (update_rateio-Freezes env i id user input).at w
  serve_rateio-Freezes (RateioRequest.preview id user users) w n =
      (Within-bind (Freezes-frame i) _ _ (get_rateio-Freezes env i id user)
          (λ _. search (within_rules, Freezes-frame) depth 9)).at
        w
  serve_rateio-Freezes (RateioRequest.close id user shares) w n =
      (fechar_rateio-Freezes env i id user shares).at w

-- A stored split that is closed (CANCELADO) is the same document after any sequence of requests
-- that does not delete it, whatever database calls fail.
pub closed_rateio_frozen :
    (env : Env) (rs : List RateioRequest) (i : String) (w : World) (d : RateioDocument)
    → any (deletes_rateio i) rs ≡ false
    → find (is_rateio i) w.rateios ≡ some d
    → is_closed d ≡ true
    → find (is_rateio i) (serve_rateios env rs w).rateios ≡ some d
unfolding serve_rateios
closed_rateio_frozen env [] i w d n e c = e
closed_rateio_frozen env (r ∷ rs) i w d n e c =
    closed_rateio_frozen env rs i (serve_rateio env r w) d (ground (arith, n))
      ((serve_rateio-Freezes env i r w (ground (arith, n))).frozen d e c) c

IsClosedAt : String → World → Type 0
IsClosedAt i w =
    (d : RateioDocument) × (find (is_rateio i) w.rateios ≡ some d) × (is_closed d ≡ true)

write_rateio-closes :
    (env : Env) (now : ℕ) (r : Rateio)
    → Leaves (IsClosedAt r.id) (write_rateio env (closed_rateio now r))
unfolding IsClosedAt write_rateio set_rateio status_to_mongo ◌>>=◌ either raise driver raise_if gets
    modify pure time_now
write_rateio-closes env now r = record {
  after = λ w a. elim (Bool-cases (env.fails (tick w).calls)) [
    | inl down ↦ rw down (λ h. absurd (ground (arith, h)))
    | inr up ↦ rw up (elim (Bool-cases (any (is_rateio r.id) w.rateios)) [
      | inl found ↦ rw found (λ h.
          let (d, met) = find-any (is_rateio r.id) w.rateios found in
          (
            set_rateio env.floats (closed_rateio now r) (env.bson_date (env.now w.calls)) d,
            find-update_first (is_rateio r.id) _ w.rateios d (λ x h. h) met,
            refl,
          ))
      | inr missing ↦ rw missing (λ h. absurd (ground (arith, h)))
    ])
  ];
}

SameFechamentos : World → World → Type 0
SameFechamentos w w' = w'.fechamentos ≡ w.fechamentos

SameFechamentos-frame : IsFrame SameFechamentos
unfolding SameFechamentos
SameFechamentos-frame = record {
  rel_refl = λ w. refl;
  rel_trans = λ u v w h k. k ∙ h;
  rel_tick = λ w. refl;
}

module _ (env : Env) (id user : String) where
  get_same : (w : World) → SameFechamentos w (get_rateio env id user w).1
  unfolding get_rateio find_rateio
  get_same w =
      let h : Within SameFechamentos (get_rateio env id user) =
        search (within_rules, SameFechamentos-frame) depth 9 in
      h.at w

  fechar_rateio-closes :
      (shares : List FecharParticipanteInput)
      → Leaves (IsClosedAt id) (fechar_rateio env id user shares)
  unfolding fechar_rateio close_with rateio_doc_to_domain
  fechar_rateio-closes shares = Leaves-bind_from _ _ λ w r got.
      let (d, found, loaded, owner) = get_rateio-found env id user w r got in
      let key : r.id ≡ id =
        ap (λ y. y.id) loaded ∙ (eq_iff d.id id).0 (find_sound (is_rateio id) w.rateios d found) in
      Leaves-bind _ _ λ _. Leaves-bind _ _ λ existing. Leaves-bind _ _ λ now.
        Leaves-bind _ _ λ saved. Leaves-bind _ _ λ closed_at. Leaves-return _ _ (
          subst (λ k. Leaves (IsClosedAt k) (write_rateio env (closed_rateio closed_at r))) key
            (write_rateio-closes env closed_at r))

  closed-cannot_edit :
      (w : World) (r : Rateio)
      → IsClosedAt id w
      → (get_rateio env id user w).0 ≡ ok r
      → rateio_can_edit r ≡ false
  unfolding IsClosedAt
  closed-cannot_edit w r (d, stored, closed) got = elim (Bool-cases (rateio_can_edit r)) [
    | inl edits ↦
        let (d', found, loaded, owner) = get_rateio-found env id user w r got in
        absurd (
          ground (
            arith,
            stored,
            closed,
            found,
            can_edit-open env d' (sym (ap rateio_can_edit loaded) ∙ edits),
          ))
    | inr refuses ↦ refuses
  ]

  closed-refused :
      (shares : List FecharParticipanteInput) (w : World)
      → IsClosedAt id w
      → (a : RateioFechamento) → (fechar_rateio env id user shares w).0 ≢ ok a
  unfolding fechar_rateio
  closed-refused shares w h a e =
      let (r, got, rest) = bind-eq-ok (get_rateio env id user) _ w a e in
      let (_, passed, _) = bind-eq-ok (raise_if (not (rateio_can_edit r)) _) _ _ a rest in
      ground (arith, closed-cannot_edit w r h got, raise_if-passes (rateio_can_edit r) _ _ passed)

  refused_same :
      {A : Type 0} (b : Bool) (x : Error) (m : Action A) (w : World)
      → b ≡ false
      → ((raise_if (not b) x >> m) w).1.fechamentos ≡ w.fechamentos
  unfolding raise_if ◌>>=◌ either raise
  refused_same true x m w h = absurd (ground (arith, h))
  refused_same false x m w h = refl

  closed_same :
      (shares : List FecharParticipanteInput) (w : World)
      → IsClosedAt id w
      → (fechar_rateio env id user shares w).1.fechamentos ≡ w.fechamentos
  unfolding fechar_rateio SameFechamentos
  closed_same shares w h =
      related-bind_from SameFechamentos-frame (get_rateio env id user) _ w (get_same w)
        λ r got. refused_same (rateio_can_edit r) _ _ _ (closed-cannot_edit w r h got)

-- Once the closing of a split has returned a snapshot, and after any sequence of requests that does not
-- delete it, each by anyone, a closing of it, by anyone, is refused and adds no snapshot, whatever
-- database calls fail.
pub closes_once :
    (env between later : Env) (rs : List RateioRequest) (id user other : String)
    (shares more : List FecharParticipanteInput) (w : World) (f : RateioFechamento)
    → (fechar_rateio env id user shares w).0 ≡ ok f
    → any (deletes_rateio id) rs ≡ false
    → let w' = serve_rateios between rs (fechar_rateio env id user shares w).1 in
      ((g : RateioFechamento) → (fechar_rateio later id other more w').0 ≢ ok g)
      × ((fechar_rateio later id other more w').1.fechamentos ≡ w'.fechamentos)
unfolding IsClosedAt
closes_once env between later rs id user other shares more w f h kept =
    let (d, found, closed) = (fechar_rateio-closes env id user shares).after w f h in
    let w1 = (fechar_rateio env id user shares w).1 in
    let w' = serve_rateios between rs w1 in
    let still : IsClosedAt id w' =
      (d, closed_rateio_frozen between rs id w1 d kept found closed, closed) in
    (closed-refused later id other more w' still, closed_same later id other more w' still)
