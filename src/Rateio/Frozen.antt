-- ===== src/Rateio/Frozen.antt =====
-- A closed split is never changed again.
use backend_go_role_organiza.Prelude.{
  ℕ, String, ◌==◌, ◌≡◌, refl, sym, ap, ◌∙◌, Bool, true, false, not, Option, none, some, List, [],
  ◌∷◌, find, any, update_first, arith, Bool-cases, inl, inr, eq_iff, find-append, find-update_other,
  find-drop_other, find_sound, eq_false_sym, keys-differ,
}
use backend_go_role_organiza.ApiErr.{Error}
use backend_go_role_organiza.Rateio.Domain.{
  Rateio, RateioDocument, RateioFechamento, RateioItem, rateio_can_edit,
}
use backend_go_role_organiza.Rateio.Repository.{
  status_from_mongo, rateio_doc_to_domain, is_rateio, rateio_doc_from_domain, set_rateio,
  save_rateio, write_rateio, erase_rateio, find_fechamentos, save_fechamento,
}
use backend_go_role_organiza.Rateio.UseCases.{
  UpdateRateioInput, FecharParticipanteInput, RateioItemInput, get_rateio, new_itens, update_rateio,
  close_with, fechar_rateio, edited, snapshot, closed_rateio, known,
}
use backend_go_role_organiza.World.{
  World, Env, Action, ◌>>=◌, ◌>>◌, either, raise, raise_if, driver, gets, modify, pure, time_now,
  tick,
}
use backend_go_role_organiza.World.Within.{
  Within, within_rules, Within-pure, related-bind, related-bind_from,
}
use backend_go_role_organiza.Rateio.Loaded.{
  is_closed, Freezes, Freezes-frame, SameRateios, SameRateios-frame, Freezes-of-SameRateios,
  Within-modify_same, Within-modify_frozen, get_rateio-same, get_rateio-found,
}

module _ (env : Env) where
  write_other :
      (id : String) (r : Rateio) (now : ℕ) (w : World) (d : RateioDocument)
      → ((x : RateioDocument) → find (is_rateio r.id) w.rateios ≡ some x → is_closed x ≡ false)
      → find (is_rateio id) w.rateios ≡ some d
      → is_closed d ≡ true
      → find (is_rateio id) (update_first (is_rateio r.id) (set_rateio env.floats r now) w.rateios)
        ≡ some d
  unfolding set_rateio
  write_other id r now w d open_ e c = elim (Bool-cases (id == r.id)) [
    | inl same ↦
        let found = ap (λ i. find (is_rateio i) w.rateios) (sym ((eq_iff id r.id).0 same)) ∙ e in
        absurd (ground (arith, c, open_ d found))
    | inr other ↦
        find-update_other (is_rateio id) (is_rateio r.id) _ w.rateios (λ x. refl)
          (λ x q. keys-differ x.id id r.id other q)
        ∙ e
  ]

  write_rateio-Freezes :
      (id : String) (r : Rateio) (w : World)
      → ((d : RateioDocument) → find (is_rateio r.id) w.rateios ≡ some d → is_closed d ≡ false)
      → Freezes id w (write_rateio env r w).1
  unfolding write_rateio ◌>>=◌ either raise driver raise_if gets modify pure time_now
  write_rateio-Freezes id r w open_ = elim (Bool-cases (env.fails (tick w).calls)) [
    | inl down ↦ rw down (record { frozen = λ d e c. e })
    | inr up ↦ rw up (elim (Bool-cases (any (is_rateio r.id) w.rateios)) [
      | inl found ↦ rw found (record { frozen = λ d e c. write_other id r _ w d open_ e c })
      | inr missing ↦ rw missing (record { frozen = λ d e c. e })
    ])
  ]

  -- The write of a split that was loaded open.
  pub can_edit-open :
      (d : RateioDocument)
      → rateio_can_edit (rateio_doc_to_domain env.floats d) ≡ true
      → is_closed d ≡ false
  unfolding rateio_can_edit rateio_doc_to_domain status_from_mongo
  can_edit-open d h = elim (Bool-cases (is_closed d)) [
    | inl closed ↦ absurd (ground (arith, h, closed))
    | inr open_ ↦ open_
  ]

  -- `m` is safe from every world in which the split `r` is stored and open.
  record Edits (id : String) (r : Rateio) {A : Type 0} (m : Action A) : Type 0 where
    at :
        (w : World) (d : RateioDocument)
        → find (is_rateio r.id) w.rateios ≡ some d
        → is_closed d ≡ false
        → Freezes id w (m w).1

  module _ (id : String) (r : Rateio) where
    Edits-read :
        {A B : Type 0} (m : Action A) (f : A → Action B)
        → Within SameRateios m
        → ((a : A) → Edits id r (f a))
        → Edits id r (m >>= f)
    Edits-read m f hm hf = record {
      at = λ w d e o.
          related-bind_from (Freezes-frame id) m f w (Freezes-of-SameRateios id w _ (hm.at w))
            λ a _. (hf a).at (m w).1 d (ap (find (is_rateio r.id)) (hm.at w).same ∙ e) o;
    }

    Edits-write : (x : Rateio) → x.id ≡ r.id → Edits id r (write_rateio env x)
    Edits-write x same = record {
      at = λ w d e o.
          write_rateio-Freezes id x w
            λ d' e'. ground (arith, o, e, e', ap (λ i. find (is_rateio i) w.rateios) same);
    }

    Edits-then :
        {A B : Type 0} (m : Action A) (f : A → Action B)
        → Edits id r m
        → ((a : A) → Within (Freezes id) (f a))
        → Edits id r (m >>= f)
    Edits-then m f hm hf = record {
      at = λ w d e o. related-bind (Freezes-frame id) m f w (hm.at w d e o) hf;
    }

  either_edit :
      {B : Type 0} (i : String) (b : Bool) (x : Error) (r : Rateio) (f : Rateio → Action B)
      (w : World)
      → (b ≡ true → Freezes i w (f r w).1)
      → Freezes i w ((raise_if (not b) x >> f r) w).1
  unfolding raise_if ◌>>=◌ either raise
  either_edit i true x r f w h = h refl
  either_edit i false x r f w h = (Freezes-frame i).rel_refl w

  -- A use case that loads a split, refuses one that is closed, and then edits it.
  edit_loaded :
      {B : Type 0} (i id user : String) (x : Error) (f : Rateio → Action B)
      → ((r : Rateio) → Edits i r (f r))
      → Within
          (Freezes i)
          (get_rateio env id user >>= λ r. raise_if (not (rateio_can_edit r)) x >> f r)
  unfolding rateio_doc_to_domain
  edit_loaded i id user x f h = record {
    at = λ w.
        related-bind_from (Freezes-frame i) (get_rateio env id user) _ w
          (Freezes-of-SameRateios i w _ ((get_rateio-same env id user).at w))
          λ r got.
            let (d, found, loaded, owner) = get_rateio-found env id user w r got in
            let key : r.id ≡ id =
              ap (λ y. y.id) loaded
              ∙ (eq_iff d.id id).0 (find_sound (is_rateio id) w.rateios d found) in
            let w' = (get_rateio env id user w).1 in
            either_edit i (rateio_can_edit r) x r f w' λ open_.
              (h r).at w' d
                (ap (λ k. find (is_rateio k) w'.rateios) key
                  ∙ ap (find (is_rateio id)) ((get_rateio-same env id user).at w).same
                  ∙ found)
                (can_edit-open d (sym (ap rateio_can_edit loaded) ∙ open_));
  }

  new_itens-same :
      (o : Option (List RateioItemInput)) (old : List RateioItem)
      → Within SameRateios (new_itens env o old)
  unfolding new_itens
  new_itens-same none old = Within-pure SameRateios-frame old
  new_itens-same (some its) old = search (within_rules, SameRateios-frame)

  pub update_rateio-Freezes :
      (i id user : String) (input : UpdateRateioInput)
      → Within (Freezes i) (update_rateio env id user input)
  unfolding update_rateio
  update_rateio-Freezes i id user input = edit_loaded i id user _ _ λ r.
      Edits-read i r _ _ (new_itens-same input.itens r.itens) λ itens.
        Edits-read i r _ _ (search (within_rules, SameRateios-frame))
          λ now. Edits-write i r (edited input itens now r) refl

  save_fechamento-same : (f : RateioFechamento) → Within SameRateios (save_fechamento env f)
  unfolding save_fechamento
  save_fechamento-same f = search (within_rules, SameRateios-frame, Within-modify_same) depth 9

  close_with-Edits :
      (i id : String) (shares : List FecharParticipanteInput) (r : Rateio)
      → Edits i r (close_with env id shares r)
  unfolding close_with find_fechamentos
  close_with-Edits i id shares r =
      Edits-read i r _ _ (search (within_rules, SameRateios-frame) depth 9) λ existing.
        Edits-read i r _ _ (search (within_rules, SameRateios-frame)) λ now.
          Edits-read i r _ _
            (save_fechamento-same (snapshot env.floats r (known existing) shares now))
            λ saved. Edits-read i r _ _ (search (within_rules, SameRateios-frame)) λ closed_at.
              Edits-then i r _ _ (Edits-write i r (closed_rateio closed_at r) refl)
                λ _. Within-pure (Freezes-frame i) saved

  pub fechar_rateio-Freezes :
      (i id user : String) (shares : List FecharParticipanteInput)
      → Within (Freezes i) (fechar_rateio env id user shares)
  unfolding fechar_rateio
  fechar_rateio-Freezes i id user shares =
      edit_loaded i id user _ (close_with env id shares) (close_with-Edits i id shares)

  pub erase_rateio-Freezes :
      (i id : String) → (id == i) ≡ false → Within (Freezes i) (erase_rateio env id)
  unfolding erase_rateio
  erase_rateio-Freezes i id other =
      search
        (
          within_rules,
          Freezes-frame,
          Within-modify_frozen,
          λ (w : World) (d : RateioDocument) (e : find (is_rateio i) w.rateios ≡ some d)
                (c : is_closed d ≡ true).
              find-drop_other (is_rateio i) (is_rateio id) w.rateios
                (λ x q. keys-differ x.id i id (eq_false_sym id i other) q)
              ∙ e,
        )
        depth 9

  pub save_rateio-Freezes : (i : String) (r : Rateio) → Within (Freezes i) (save_rateio env r)
  unfolding save_rateio rateio_doc_from_domain
  save_rateio-Freezes i r =
      search
        (
          within_rules,
          Freezes-frame,
          Within-modify_frozen,
          λ (w : World) (x d : RateioDocument) (e : find (is_rateio i) w.rateios ≡ some d)
                (c : is_closed d ≡ true).
              find-append (is_rateio i) w.rateios (x ∷ []) d e,
        )
        depth 12
