-- ===== src/Event/ReadBack.antt =====
-- A draft is read back as it was saved, with the times that a BSON date keeps.
use backend_go_role_organiza.Prelude.{
  ℕ, suc, String, ◌==◌, ◌≡◌, refl, sym, subst, true, false, any, eqb, arith, Bool-cases, inl, inr,
  eq_iff, eq_refl, find-append_new, if◌then◌else◌,
}
use backend_go_role_organiza.Event.Domain.{EventoDraft, EventoDraftDocument}
use backend_go_role_organiza.Event.Drafts.{
  draft_from_doc, draft_to_doc, kept_draft, kept_time, stored_draft, is_draft, find_draft,
  save_draft,
}
use backend_go_role_organiza.World.{
  World, Env, ok, ◌>>=◌, either, raise, raise_if, driver, gets, modify, or_raise, pure, time_now,
  new_object_id, tick,
}
use backend_go_role_organiza.World.Inversion.{ok_inj}

-- The document keeps every field, the custom rules as a list of at most one text.
stored-read_back :
    (id : String) (t : ℕ) (d : EventoDraft)
    → draft_from_doc (stored_draft id t d) ≡ record d { id = id; updated_at = t }
unfolding draft_from_doc draft_to_doc
stored-read_back id t d = elim (Bool-cases (d.regras_customizadas == "")) [
  | inl empty ↦ rw empty (rw (sym ((eq_iff d.regras_customizadas "").0 empty)) refl)
  | inr full ↦ rw full refl
]

-- A draft with its four times cut to what a BSON date keeps.
unfoldable pub cut_times : Env → EventoDraft → EventoDraft
cut_times env d = record d {
  data_evento = kept_time env d.data_evento;
  prazo_pagamento = kept_time env d.prazo_pagamento;
  criado_em = env.bson_date d.criado_em;
  updated_at = env.bson_date d.updated_at;
}

module _ (env : Env) (d : EventoDraft) (w : World) where
  made_doc : EventoDraftDocument
  made_doc =
      let now = env.now (suc w.calls) in
      stored_draft (env.object_id w.calls) now
        (record d { criado_em = if eqb d.criado_em 0 then now else d.criado_em })

  save_draft-made :
      (saved : EventoDraft)
      → (save_draft env d w).0 ≡ ok saved
      → (env.fails (tick (tick w)).calls ≡ false) × (draft_from_doc made_doc ≡ saved)
  unfolding made_doc save_draft ◌>>=◌ either raise driver raise_if modify pure time_now
      new_object_id
  save_draft-made saved = elim (Bool-cases (env.fails (tick (tick w)).calls)) [
    | inl down ↦ rw down (λ h. absurd (ground (arith, h)))
    | inr up ↦ rw up (λ h. (refl, ok_inj h))
  ]

  made-read_back :
      env.fails (tick (tick w)).calls ≡ false
      → any (is_draft (env.object_id w.calls)) w.drafts ≡ false
      → env.is_object_id (env.object_id w.calls) ≡ true
      → env.fails (save_draft env d w).1.calls ≡ false
      → (find_draft env (env.object_id w.calls) (save_draft env d w).1).0
        ≡ ok (draft_from_doc (kept_draft env made_doc))
  unfolding made_doc save_draft find_draft kept_draft ◌>>=◌ either raise driver raise_if gets modify
      or_raise pure time_now new_object_id
  made-read_back up fresh hex = rw up (λ answers. rw hex (
      rw answers (
        rw
          (find-append_new (is_draft (env.object_id w.calls)) w.drafts (kept_draft env made_doc)
            fresh (eq_refl (env.object_id w.calls)))
          refl)))

  made-returned :
      env.fails (tick (tick w)).calls ≡ false
      → (let s = draft_from_doc made_doc in
          any (is_draft s.id) w.drafts ≡ false
          → env.is_object_id s.id ≡ true
          → env.fails (save_draft env d w).1.calls ≡ false
          → (s ≡ record d { id = s.id; criado_em = s.criado_em; updated_at = s.updated_at })
            × ((find_draft env s.id (save_draft env d w).1).0 ≡ ok (cut_times env s)))
  unfolding made_doc draft_from_doc draft_to_doc cut_times kept_draft
  made-returned up fresh hex answers = (
    stored-read_back (env.object_id w.calls) (env.now (suc w.calls))
        (record d { criado_em = if eqb d.criado_em 0 then env.now (suc w.calls) else d.criado_em }),
    made-read_back up fresh hex answers,
  )

-- A draft that was saved is the draft that was given, but for the identifier and the two times of the
-- record; and where the identifier is fresh, the next query, if the database answers it, reads the
-- saved draft back with every field but the times as saved, and its date, its term of payment and the
-- times of the record cut to what a BSON date keeps.
pub saved_draft_read_back :
    (env : Env) (d saved : EventoDraft) (w : World)
    → (save_draft env d w).0 ≡ ok saved
    → any (is_draft saved.id) w.drafts ≡ false
    → env.is_object_id saved.id ≡ true
    → env.fails (save_draft env d w).1.calls ≡ false
    → (saved
        ≡ record d { id = saved.id; criado_em = saved.criado_em; updated_at = saved.updated_at })
      × ((find_draft env saved.id (save_draft env d w).1).0 ≡ ok (cut_times env saved))
saved_draft_read_back env d saved w h =
    let (up, same) = save_draft-made env d w saved h in
    subst
      (λ s.
        any (is_draft s.id) w.drafts ≡ false
        → env.is_object_id s.id ≡ true
        → env.fails (save_draft env d w).1.calls ≡ false
        → (s ≡ record d { id = s.id; criado_em = s.criado_em; updated_at = s.updated_at })
          × ((find_draft env s.id (save_draft env d w).1).0 ≡ ok (cut_times env s)))
      same (made-returned env d w up)
