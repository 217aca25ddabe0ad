-- ===== src/Event/Stale.antt =====
-- An update of a draft from a stale reading is refused.
use backend_go_role_organiza.Prelude.{
  ℕ, String, ◌≡◌, ◌≢◌, refl, sym, ap, subst, ◌∙◌, Bool, true, false, some, find, ltb, arith,
  Bool-cases, Option-cases, inl, inr, eq_iff, eq_refl, find-update_first, find_sound, List,
}
use backend_go_role_organiza.ApiErr.{Error}
use backend_go_role_organiza.Event.Domain.{EventoDraft, EventoDraftDocument, draft_is_owner}
use backend_go_role_organiza.Event.Drafts.{
  draft_from_doc, draft_to_doc, stored_draft, kept_draft, is_draft, find_draft, replace_draft,
}
use backend_go_role_organiza.Event.UseCases.{
  UpsertDraftInput, get_draft, update_draft, edited_draft, is_stale,
}
use backend_go_role_organiza.World.{
  World, Env, Action, ok, ◌>>=◌, ◌>>◌, either, raise, raise_if, driver, gets, modify, or_raise,
  pure, time_now, tick,
}
use backend_go_role_organiza.World.Inversion.{
  bind-eq-ok, ok_inj, raise_if-skips, raise_if-world, bind-ok,
}
use backend_go_role_organiza.World.Within.{IsFrame, Within, within_rules, related-bind_from}
use backend_go_role_organiza.Event.Newer.{IsNewer, update_all, updates-IsNewer}

SameDrafts : World → World → Type 0
SameDrafts w w' = w'.drafts ≡ w.drafts

SameDrafts-frame : IsFrame SameDrafts
unfolding SameDrafts
SameDrafts-frame = record {
  rel_refl = λ w. refl;
  rel_trans = λ u v w h k. k ∙ h;
  rel_tick = λ w. refl;
}

conflict_same :
    {A : Type 0} (b : Bool) (x : Error) (m : Action A) (w : World)
    → b ≡ true
    → ((raise_if b x >> m) w).1.drafts ≡ w.drafts
unfolding raise_if ◌>>=◌ either raise
conflict_same true x m w h = refl
conflict_same false x m w h = absurd (ground (arith, h))

module _ (env : Env) (id user : String) where
  pub get_draft-found :
      (w : World) (d : EventoDraft)
      → (get_draft env id user w).0 ≡ ok d
      → (doc : EventoDraftDocument) × (find (is_draft id) w.drafts ≡ some doc)
        × (d ≡ draft_from_doc doc)
  unfolding get_draft find_draft ◌>>=◌ either raise driver raise_if gets or_raise pure
  get_draft-found w d = elim (Bool-cases (env.is_object_id id)) [
    | inl hex ↦ rw hex (elim (Bool-cases (env.fails w.calls)) [
      | inl down ↦ rw down (λ h. absurd (ground (arith, h)))
      | inr up ↦ rw up (elim (Option-cases (find (is_draft id) w.drafts)) [
        | inl missing ↦ rw missing (λ h. absurd (ground (arith, h)))
        | inr (doc, found) ↦
            rw found (elim (Bool-cases (draft_is_owner (draft_from_doc doc) user)) [
              | inl owner ↦ rw owner (λ h. (doc, refl, sym (ok_inj h)))
              | inr stranger ↦ rw stranger (λ h. absurd (ground (arith, h)))
            ])
      ])
    ])
    | inr other ↦ rw other (λ h. absurd (ground (arith, h)))
  ]

  newer-is_stale :
      (t : ℕ) (input : UpsertDraftInput) (w : World) (d : EventoDraft)
      → input.last_read_at ≡ some t
      → IsNewer id t w
      → (get_draft env id user w).0 ≡ ok d
      → is_stale input.last_read_at d ≡ true
  unfolding draft_from_doc is_stale
  newer-is_stale t input w d read (doc, stored, newer) got =
      let (doc', found, loaded) = get_draft-found w d got in
      ap (λ o. is_stale o d) read
      ∙ ground (arith, stored, found, newer, ap (λ x. x.updated_at) loaded)

  stale-refused :
      (t : ℕ) (input : UpsertDraftInput) (w : World)
      → input.last_read_at ≡ some t
      → IsNewer id t w
      → (a : EventoDraft) → (update_draft env id user input w).0 ≢ ok a
  unfolding update_draft
  stale-refused t input w read newer a h =
      let (d, got, rest) = bind-eq-ok (get_draft env id user) _ w a h in
      let (_, passed, _) = bind-eq-ok (raise_if (is_stale input.last_read_at d) _) _ _ a rest in
      ground (arith, newer-is_stale t input w d read newer got, raise_if-skips _ _ _ passed)

  get_draft-drafts : (w : World) → (get_draft env id user w).1.drafts ≡ w.drafts
  unfolding get_draft find_draft SameDrafts
  get_draft-drafts w =
      let h : Within SameDrafts (get_draft env id user) =
        search (within_rules, SameDrafts-frame) depth 9 in
      h.at w

  -- What a refused update does.
  stale_same :
      (t : ℕ) (input : UpsertDraftInput) (w : World)
      → input.last_read_at ≡ some t
      → IsNewer id t w
      → (update_draft env id user input w).1.drafts ≡ w.drafts
  unfolding update_draft SameDrafts
  stale_same t input w read newer =
      related-bind_from SameDrafts-frame (get_draft env id user) _ w (get_draft-drafts w) λ d got.
        conflict_same (is_stale input.last_read_at d) _ _ _
          (newer-is_stale t input w d read newer got)

  replace_draft-IsNewer :
      (t now : ℕ) (input : UpsertDraftInput) (d : EventoDraft) (w : World)
      (doc : EventoDraftDocument)
      → ((n : ℕ) → ltb t (env.bson_date (env.now n)) ≡ true)
      → find (is_draft d.id) w.drafts ≡ some doc
      → (a : EventoDraft) → (replace_draft env (edited_draft input now d) w).0 ≡ ok a
      → IsNewer d.id t (replace_draft env (edited_draft input now d) w).1
  unfolding replace_draft draft_to_doc kept_draft ◌>>=◌ either raise driver raise_if modify pure
      time_now
  replace_draft-IsNewer t now input d w doc clock stored a =
      elim (Bool-cases (env.is_object_id d.id)) [
        | inl hex ↦ rw hex (elim (Bool-cases (env.fails (tick w).calls)) [
          | inl down ↦ rw down (λ h. absurd (ground (arith, h)))
          | inr up ↦ rw up (λ h. (
            kept_draft env (stored_draft d.id (env.now w.calls) (edited_draft input now d)),
            find-update_first (is_draft d.id) _ w.drafts doc (λ x q. eq_refl d.id) stored,
            clock w.calls,
          ))
        ])
        | inr other ↦ rw other (λ h. absurd (ground (arith, h)))
      ]

  -- An update that returns leaves a draft that is newer than every time before the clock.
  update_draft-IsNewer :
      (t : ℕ) (input : UpsertDraftInput) (w : World) (a : EventoDraft)
      → ((n : ℕ) → ltb t (env.bson_date (env.now n)) ≡ true)
      → (update_draft env id user input w).0 ≡ ok a
      → IsNewer id t (update_draft env id user input w).1
  unfolding update_draft draft_from_doc time_now
  update_draft-IsNewer t input w a clock h =
      let load = get_draft env id user in
      let (d, got, rest) = bind-eq-ok load _ w a h in
      let (doc, found, loaded) = get_draft-found w d got in
      let w1 = (load w).1 in
      let guard = raise_if (is_stale input.last_read_at d) _ in
      let (_, passed, after_guard) = bind-eq-ok guard _ w1 a rest in
      let (now, read, wrote) = bind-eq-ok (time_now env) _ (guard w1).1 a after_guard in
      let w2 = (time_now env (guard w1).1).1 in
      let key : d.id ≡ id =
        ap (λ y. y.id) loaded
        ∙ (eq_iff doc.id id).0 (find_sound (is_draft id) w.drafts doc found) in
      let still =
        ap (λ k. find (is_draft k) w2.drafts) key
        ∙ ap (λ v. find (is_draft id) (v.1).drafts)
            (raise_if-world _ _ w1 (raise_if-skips _ _ w1 passed))
        ∙ ap (find (is_draft id)) (get_draft-drafts w)
        ∙ found in
      let world =
        bind-ok load _ w d got
        ∙ bind-ok guard _ w1 tt passed
        ∙ bind-ok (time_now env) _ (guard w1).1 now read in
      subst (λ v. IsNewer id t v) (sym (ap (λ r. r.1) world))
        (subst (λ k. IsNewer k t (replace_draft env (edited_draft input now d) w2).1) key
          (replace_draft-IsNewer t now input d w2 doc clock still a wrote))

-- Once an update of a draft has returned, and after any updates of any drafts, an update of it, by any
-- user and whatever database calls fail, is refused and changes no draft if its last reading is from
-- before the first update: the clock during the first one and during those in between, cut to what a
-- BSON date keeps, is past that reading.
pub stale_update_refused :
    (env between later : Env) (id user other : String) (input stale : UpsertDraftInput) (t : ℕ)
    (cs : List (String × String × UpsertDraftInput)) (w : World) (a : EventoDraft)
    → ((n : ℕ) → ltb t (env.bson_date (env.now n)) ≡ true)
    → ((n : ℕ) → ltb t (between.bson_date (between.now n)) ≡ true)
    → stale.last_read_at ≡ some t
    → (update_draft env id user input w).0 ≡ ok a
    → let w' = update_all between cs (update_draft env id user input w).1 in
      ((b : EventoDraft) → (update_draft later id other stale w').0 ≢ ok b)
      × ((update_draft later id other stale w').1.drafts ≡ w'.drafts)
unfolding SameDrafts
stale_update_refused env between later id user other input stale t cs w a clock ticking read h =
    let w' = update_all between cs (update_draft env id user input w).1 in
    let newer : IsNewer id t w' =
      updates-IsNewer between id t cs _ ticking
        (update_draft-IsNewer env id user t input w a clock h) in
    (
      stale-refused later id other t stale w' read newer,
      stale_same later id other t stale w' read newer,
    )
