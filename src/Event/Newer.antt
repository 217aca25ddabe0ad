-- ===== src/Event/Newer.antt =====
-- A draft that is newer than a reading stays so under later updates.
use backend_go_role_organiza.Prelude.{
  ℕ, String, ◌≡◌, refl, sym, ap, subst, ◌∙◌, Bool, true, false, some, find, ltb, arith, Bool-cases,
  inl, inr, eq_iff, eq_refl, find-update_first, List, [], ◌∷◌, ◌==◌, update_first, eq_false_sym,
  keys-differ,
}
use backend_go_role_organiza.Event.Domain.{EventoDraft, EventoDraftDocument}
use backend_go_role_organiza.Event.Drafts.{
  draft_to_doc, stored_draft, kept_draft, is_draft, find_draft, replace_draft,
}
use backend_go_role_organiza.Event.UseCases.{UpsertDraftInput, get_draft, update_draft}
use backend_go_role_organiza.World.{
  World, Env, ◌>>=◌, either, raise, raise_if, driver, modify, pure, time_now, tick,
}
use backend_go_role_organiza.World.Within.{IsFrame, Within, within_rules}

-- A stored draft whose last update is later than `t`.
abbrev pub IsNewer : String → ℕ → World → Type 0
IsNewer id t w =
    (doc : EventoDraftDocument) × (find (is_draft id) w.drafts ≡ some doc)
    × (ltb t doc.atualizado_em ≡ true)

find-replace_other :
    {A : Type 0} (p q : A → Bool) (y : A) (xs : List A)
    → p y ≡ false
    → ((x : A) → q x ≡ true → p x ≡ false)
    → find p (update_first q (λ _. y) xs) ≡ find p xs
find-replace_other p q y [] k n = refl
find-replace_other p q y (x ∷ xs) k n = ground (arith, k, n x, find-replace_other p q y xs k n)

-- A draft that is newer than `t` stays so.
record KeepsNewer (id : String) (t : ℕ) (w w' : World) : Type 0 where
  newer : IsNewer id t w → IsNewer id t w'

KeepsNewer-frame : (id : String) (t : ℕ) → IsFrame (KeepsNewer id t)
KeepsNewer-frame id t = record {
  rel_refl = λ w. record { newer = λ h. h };
  rel_trans = λ u v w h k. record { newer = λ x. k.newer (h.newer x) };
  rel_tick = λ w. record { newer = λ h. h };
}

module _ (env : Env) (id : String) (t : ℕ)
    (clock : (n : ℕ) → ltb t (env.bson_date (env.now n)) ≡ true) where
  replaced-IsNewer :
      (d : EventoDraft) (now : ℕ) (w : World)
      → ltb t (env.bson_date now) ≡ true
      → (h : IsNewer id t w)
      → IsNewer id t (record w {
        drafts =
            update_first (is_draft d.id) (λ _. kept_draft env (stored_draft d.id now d)) w.drafts;
      })
  unfolding kept_draft draft_to_doc
  replaced-IsNewer d now w past (doc, found, after) = elim (Bool-cases (id == d.id)) [
    | inl same ↦
        let key = (eq_iff id d.id).0 same in
        (
          kept_draft env (stored_draft d.id now d),
          subst
              (λ k.
                find (is_draft k) (
                  update_first (is_draft d.id) (λ _. kept_draft env (stored_draft d.id now d))
                    w.drafts)
                ≡ some (kept_draft env (stored_draft d.id now d)))
              (sym key)
              (find-update_first (is_draft d.id) _ w.drafts doc (λ x q. eq_refl d.id)
                (ap (λ k. find (is_draft k) w.drafts) (sym key) ∙ found)),
          past,
        )
    | inr other ↦ (
      doc,
      find-replace_other (is_draft id) (is_draft d.id) _ w.drafts (eq_false_sym id d.id other)
            (λ x q. keys-differ x.id id d.id other q)
          ∙ found,
      after,
    )
  ]

  replace_draft-newer : (d : EventoDraft) → Within (KeepsNewer id t) (replace_draft env d)
  unfolding replace_draft ◌>>=◌ either raise driver raise_if modify pure time_now
  replace_draft-newer d = record {
    at = λ w. elim (Bool-cases (env.is_object_id d.id)) [
      | inl hex ↦ rw hex (elim (Bool-cases (env.fails (tick w).calls)) [
        | inl down ↦ rw down (record { newer = λ h. h })
        | inr up ↦
            rw up (record { newer = λ h. replaced-IsNewer d (env.now w.calls) w (clock w.calls) h })
      ])
      | inr bad ↦ rw bad (record { newer = λ h. h })
    ];
  }

  update_draft-newer :
      (key user : String) (input : UpsertDraftInput)
      → Within (KeepsNewer id t) (update_draft env key user input)
  unfolding update_draft get_draft find_draft
  update_draft-newer key user input =
      search (within_rules, KeepsNewer-frame, replace_draft-newer) depth 12

-- Updates of drafts, one after the other: the draft, the requester and the input.
unfoldable pub update_all : Env → List (String × String × UpsertDraftInput) → World → World
update_all env [] w = w
update_all env (c ∷ cs) w = update_all env cs (update_draft env c.0 c.1 c.2 w).1

pub updates-IsNewer :
    (env : Env) (id : String) (t : ℕ) (cs : List (String × String × UpsertDraftInput)) (w : World)
    → ((n : ℕ) → ltb t (env.bson_date (env.now n)) ≡ true)
    → IsNewer id t w
    → IsNewer id t (update_all env cs w)
unfolding update_all
updates-IsNewer env id t [] w clock h = h
updates-IsNewer env id t (c ∷ cs) w clock h =
    updates-IsNewer env id t cs _ clock
      (((update_draft-newer env id t clock c.0 c.1 c.2).at w).newer h)
