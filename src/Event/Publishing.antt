-- ===== src/Event/Publishing.antt =====
-- What of a draft is in the event that it becomes, and what of an edited event is stored.
use backend_go_role_organiza.Prelude.{
  ℕ, suc, String, ◌≡◌, refl, sym, ap, subst, ◌∙◌, Bool, Option, none, some, List, [], ◌∷◌, ℤ, int32,
  find, update_first, map, arith, Bool-cases, inl, inr,
}
use backend_go_role_organiza.Event.Domain.{EventoDraftDocument, Evento, EventoDocument}
use backend_go_role_organiza.Event.Drafts.{draft_from_doc, is_draft, erase_draft}
use backend_go_role_organiza.Event.Eventos.{
  evento_from_doc, new_evento_doc, set_evento, is_evento, find_evento, save_evento, kept_date,
  write_evento, map_option,
}
use backend_go_role_organiza.Event.UseCases.{
  given, UpdateEventoInput, get_draft, publish_draft, published, owned_evento, update_evento,
  edited_evento,
}
use backend_go_role_organiza.Event.Stale.{get_draft-found}
use backend_go_role_organiza.World.{
  World, Env, ok, ◌>>=◌, ◌>>◌, either, raise, raise_if, driver, modify, pure, ignore, time_now,
  new_uuid, tick,
}
use backend_go_role_organiza.World.Inversion.{bind-eq-ok, ok_inj}
use backend_go_role_organiza.World.Within.{IsFrame, Within, within_rules, Within-bind, Within-pure}

-- The event that `Save` returns for a draft.
module _ (env : Env) where
  save_evento-returns :
      (e saved : Evento) (w : World)
      → (save_evento env e w).0 ≡ ok saved
      → evento_from_doc (new_evento_doc (env.uuid w.calls) (env.now (suc w.calls)) e) ≡ saved
  unfolding save_evento ◌>>=◌ either raise driver raise_if modify pure time_now new_uuid
  save_evento-returns e saved w = elim (Bool-cases (env.fails (tick (tick w)).calls)) [
    | inl down ↦ rw down (λ h. absurd (ground (arith, h)))
    | inr up ↦ rw up (λ h. ok_inj h)
  ]

-- The draft's event as it is returned, with the identifier and the times of `e`.
abbrev pub event_of_draft : EventoDraftDocument → Evento → Evento
event_of_draft doc e = record {
  id = e.id;
  usuario_id = doc.usuario_id;
  nome = doc.nome;
  tipo = doc.tipo;
  data_evento = given doc.data_evento 0;
  descricao = doc.descricao;
  local = doc.local;
  foto_url = "";
  status = "PUBLICADO";
  convidados_ids = [];
  politica_convidados = doc.politica_convidados;
  limite_convidados = map_option int32 doc.limite_convidados;
  rateios_habilitado = doc.rateios_habilitado;
  tipo_divisao_rateio = "";
  pagamentos_habilitado = doc.pagamentos_habilitado;
  metodos_pagamento = [];
  prazo_pagamento = none;
  regras_customizadas = "";
  politica_cancelamento = doc.politica_cancelamento;
  modulos_ativos = [];
  configuracao_nicho = "";
  criado_em = e.criado_em;
  updated_at = e.updated_at;
}

saved-event_of_draft :
    (id : String) (t now : ℕ) (doc : EventoDraftDocument)
    → let e = evento_from_doc (new_evento_doc id t (published (draft_from_doc doc) now)) in
      e ≡ event_of_draft doc e
unfolding evento_from_doc new_evento_doc draft_from_doc
saved-event_of_draft id t now doc = refl

publishing_returns :
    (env : Env) (id : String) (saved e : Evento) (w : World)
    → ((ignore (erase_draft env id) >> pure saved) w).0 ≡ ok e
    → saved ≡ e
unfolding ignore pure ◌>>=◌ either
publishing_returns env id saved e w h = ok_inj h

-- The event that a publication returns is that of a stored draft: owner, name, kind, date,
-- description, place, guest policy, cancellation policy and the two switches are the draft's, its
-- status is PUBLICADO and its guest limit is the draft's as an int32; but its guests, its means and
-- term of payment, its way of splitting costs and its rules are empty, whatever the draft has.
pub published_event :
    (env : Env) (id user : String) (w : World) (e : Evento)
    → (publish_draft env id user w).0 ≡ ok e
    → (doc : EventoDraftDocument) × (find (is_draft id) w.drafts ≡ some doc)
      × (e ≡ event_of_draft doc e)
unfolding publish_draft
published_event env id user w e h =
    let (d, got, rest) = bind-eq-ok (get_draft env id user) _ w e h in
    let (doc, found, loaded) = get_draft-found env id user w d got in
    let w1 = (get_draft env id user w).1 in
    let (now, read, saves) = bind-eq-ok (time_now env) _ w1 e rest in
    let w2 = (time_now env w1).1 in
    let (saved, wrote, ends) = bind-eq-ok (save_evento env (published d now)) _ w2 e saves in
    let made : Evento = evento_from_doc (
      new_evento_doc (env.uuid w2.calls) (env.now (suc w2.calls))
        (published (draft_from_doc doc) now)) in
    let same : made ≡ e =
      ap
        (λ x.
          evento_from_doc
            (new_evento_doc (env.uuid w2.calls) (env.now (suc w2.calls)) (published x now)))
        (sym loaded)
      ∙ save_evento-returns env (published d now) saved w2 wrote
      ∙ publishing_returns env id saved e _ ends in
    (doc, found, subst (λ x. x ≡ event_of_draft doc x) same (saved-event_of_draft _ _ now doc))

-- The stored owner and guest limit of an event.
abbrev pub limit_of : EventoDocument → String × String × Option ℤ
limit_of e = (e.id, e.usuario_id_responsavel, e.limite_convidados)

abbrev pub limits_of : World → List (String × String × Option ℤ)
limits_of w = map limit_of w.eventos

SameLimits : World → World → Type 0
SameLimits w w' = limits_of w' ≡ limits_of w

SameLimits-frame : IsFrame SameLimits
unfolding SameLimits
SameLimits-frame = record {
  rel_refl = λ w. refl;
  rel_trans = λ u v w h k. k ∙ h;
  rel_tick = λ w. refl;
}

limits-update :
    (p : EventoDocument → Bool) (e : Evento) (now : ℕ) (es : List EventoDocument)
    → map limit_of (update_first p (set_evento e now) es) ≡ map limit_of es
unfolding set_evento
limits-update p e now [] = refl
limits-update p e now (d ∷ ds) = elim (Bool-cases (p d)) [
  | inl hit ↦ rw hit refl
  | inr miss ↦ rw miss (ap (λ xs. limit_of d ∷ xs) (limits-update p e now ds))
]

SameLimits-write :
    (e : Evento) (now : ℕ)
    → Within SameLimits (
        modify
          λ w. record w { eventos = update_first (is_evento e.id) (set_evento e now) w.eventos })
unfolding modify SameLimits
SameLimits-write e now = record { at = λ w. limits-update (is_evento e.id) e now w.eventos }

module _ (env : Env) where
  owned_evento-limits : (id user : String) → Within SameLimits (owned_evento env id user)
  unfolding owned_evento find_evento
  owned_evento-limits id user = search (within_rules, SameLimits-frame) depth 9

  write_evento-limits : (e : Evento) → Within SameLimits (write_evento env e)
  unfolding write_evento
  write_evento-limits e =
      Within-bind SameLimits-frame _ _ (search (within_rules, SameLimits-frame)) λ now.
        Within-bind SameLimits-frame _ _ (search (within_rules, SameLimits-frame)) λ _.
          Within-bind SameLimits-frame _ _ (search (within_rules, SameLimits-frame)) λ found.
            Within-bind SameLimits-frame _ _ (search (within_rules, SameLimits-frame)) λ _.
              Within-bind SameLimits-frame _ _
                (SameLimits-write (kept_date env e) (env.bson_date now))
                λ _. Within-pure SameLimits-frame _

  update_evento-limits :
      (id user : String) (input : UpdateEventoInput)
      → Within SameLimits (update_evento env id user input)
  unfolding update_evento
  update_evento-limits id user input =
      Within-bind SameLimits-frame _ _ (owned_evento-limits id user) λ e.
        Within-bind SameLimits-frame _ _ (search (within_rules, SameLimits-frame)) λ _.
          Within-bind SameLimits-frame _ _ (search (within_rules, SameLimits-frame))
            λ now. write_evento-limits (edited_evento input now e)

-- An update of an event, by anyone and with any input, leaves the owner and the guest limit of every
-- stored event as they were, also where the input has a limit and the update returns it.
pub update_keeps_limits :
    (env : Env) (id user : String) (input : UpdateEventoInput) (w : World)
    → limits_of (update_evento env id user input w).1 ≡ limits_of w
unfolding SameLimits
update_keeps_limits env id user input w = (update_evento-limits env id user input).at w
