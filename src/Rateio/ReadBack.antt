-- ===== src/Rateio/ReadBack.antt =====
-- What a split that was saved is when it is read again: its items and its number of participants are
-- in no document.
use backend_go_role_organiza.Prelude.{
  suc, String, Bool, ℤ, ◌||◌, map, ◌==◌, ◌≡◌, ◌≢◌, refl, sym, ap, subst, ◌∙◌, false, some, List, [],
  ◌∷◌, find, any, pos, eqb_ℤ, arith, Bool-cases, inl, inr, eq_refl, find-append_new, if◌then◌else◌,
}
use backend_go_role_organiza.ApiErr.{Error}
use backend_go_role_organiza.Payment.Domain.{Float64}
use backend_go_role_organiza.Rateio.Domain.{
  Rateio, RateioDocument, StatusRateio, PreviewResult, PreviewParticipante,
}
use backend_go_role_organiza.Rateio.Repository.{
  status_to_mongo, status_from_mongo, rateio_doc_from_domain, rateio_doc_to_domain, is_rateio,
  kept_rateio, save_rateio, find_rateio, or_now,
}
use backend_go_role_organiza.Rateio.UseCases.{
  get_rateio, preview_rateio, preview_total, preview_shares, participant_count, items_total,
}
use backend_go_role_organiza.Rateio.Loaded.{get_rateio-found}
use backend_go_role_organiza.World.{
  World, Env, FloatOps, ok, ◌>>=◌, either, raise, raise_if, driver, gets, modify, or_raise, pure,
  time_now, new_uuid, uuid_binary, tick,
}
use backend_go_role_organiza.World.Inversion.{bind-eq-ok, ok_inj}

status_round_trip : (s : StatusRateio) → status_from_mongo (status_to_mongo s) ≡ s
unfolding status_from_mongo status_to_mongo
status_round_trip StatusRateio.aberto = refl
status_round_trip StatusRateio.fechado = refl

-- The part of a split that its document holds, its times as BSON dates.
unfoldable pub stored_part : Env → Rateio → Rateio
stored_part env r = record r {
  valor_total = env.floats.of_int64 (env.floats.to_int64 r.valor_total);
  numero_participantes = pos 0;
  itens = [];
  criado_em = env.bson_date r.criado_em;
  updated_at = env.bson_date r.updated_at;
}

module _ (env : Env) (r : Rateio) (w : World) where
  -- What `save_rateio` returns.
  made : Rateio
  made = record r {
    id = env.uuid w.calls;
    criado_em = or_now r.criado_em (env.now (suc w.calls));
    updated_at = env.now (suc w.calls);
  }

  -- The document that it stores, where the event's identifier is a UUID.
  made_doc : RateioDocument
  made_doc = kept_rateio env (record {
    id = env.uuid w.calls;
    evento_id = r.evento_id;
    usuario_id_responsavel = r.usuario_id;
    nome = r.descricao;
    tipo_cobranca = r.tipo;
    valor_rateado = env.floats.to_int64 r.valor_total;
    status = status_to_mongo r.status;
    pendente_recalculo = false;
    criado_em = or_now r.criado_em (env.now (suc w.calls));
    atualizado_em = env.now (suc w.calls);
  })

  save_rateio-made :
      (saved : Rateio)
      → (save_rateio env r w).0 ≡ ok saved
      → (env.fails (tick (tick (tick w))).calls ≡ false) × (made ≡ saved)
  unfolding made save_rateio rateio_doc_from_domain ◌>>=◌ either raise driver raise_if modify pure
      time_now new_uuid uuid_binary
  save_rateio-made saved = elim (Bool-cases (env.fails (tick (tick (tick w))).calls)) [
    | inl down ↦ rw down (λ h. absurd (ground (arith, h)))
    | inr up ↦ rw up (λ h. (refl, ok_inj h))
  ]

  made-read_back :
      env.parse_uuid r.evento_id ≡ some r.evento_id
      → env.fails (tick (tick (tick w))).calls ≡ false
      → any (is_rateio (env.uuid w.calls)) w.rateios ≡ false
      → env.fails (save_rateio env r w).1.calls ≡ false
      → (find_rateio env (env.uuid w.calls) (save_rateio env r w).1).0 ≡ ok (stored_part env made)
  unfolding made made_doc save_rateio find_rateio stored_part rateio_doc_from_domain
      rateio_doc_to_domain ◌>>=◌ either raise driver raise_if gets modify or_raise pure time_now
      new_uuid uuid_binary
  made-read_back event up fresh = rw event (
      rw up (λ answers. rw answers (
        rw
          (find-append_new (is_rateio (env.uuid w.calls)) w.rateios made_doc fresh
            (eq_refl (env.uuid w.calls)))
          (rw (status_round_trip r.status) refl))))

-- A split that was saved under a fresh identifier, for an event whose identifier is the canonical text
-- of a UUID, is read back, by the next query if the database answers it, with the same event, owner,
-- kind, status and description, with its value cut to a whole number and its times to what a BSON date
-- keeps, with no items and no number of participants.
pub saved_rateio_read_back :
    (env : Env) (r saved : Rateio) (w : World)
    → env.parse_uuid r.evento_id ≡ some r.evento_id
    → (save_rateio env r w).0 ≡ ok saved
    → any (is_rateio saved.id) w.rateios ≡ false
    → env.fails (save_rateio env r w).1.calls ≡ false
    → (find_rateio env saved.id (save_rateio env r w).1).0 ≡ ok (stored_part env saved)
unfolding made
saved_rateio_read_back env r saved w event h =
    let (up, same) = save_rateio-made env r w saved h in
    subst
      (λ s.
        any (is_rateio s.id) w.rateios ≡ false
        → env.fails (save_rateio env r w).1.calls ≡ false
        → (find_rateio env s.id (save_rateio env r w).1).0 ≡ ok (stored_part env s))
      same (made-read_back env r w event up)

none_listed :
    (users : List String) (r : Rateio) (x : Error) (w : World)
    → r.numero_participantes ≡ pos 0
    → (raise_if (eqb_ℤ (participant_count r users) (pos 0)) x w).0 ≡ ok tt
    → users ≢ []
unfolding raise_if
none_listed [] r x w n h = absurd (ground (arith, n, h))
none_listed (u ∷ us) r x w n h = λ e. ground (arith, e)

map-users :
    (f : String → PreviewParticipante) (users : List String)
    → ((u : String) → (f u).usuario_id ≡ u)
    → map (λ p. p.usuario_id) (map f users) ≡ users
map-users f [] h = refl
map-users f (u ∷ us) h = rw (h u) (ap (λ xs. u ∷ xs) (map-users f us h))

-- The kinds of a split for which a preview names shares.
abbrev pub has_shares : String → Bool
has_shares tipo = (tipo == "DIVISAO" || tipo == "ITENS") || tipo == "PERCENTUAL"

shares-users :
    (floats : FloatOps) (tipo : String) (total : Float64) (n : ℤ) (users : List String)
    → map (λ p. p.usuario_id) (preview_shares floats tipo total n users)
      ≡ (if has_shares tipo then users else [])
unfolding preview_shares
shares-users floats tipo total n users = elim (Bool-cases (tipo == "DIVISAO" || tipo == "ITENS")) [
  | inl equal ↦ rw equal (map-users _ users (λ u. refl))
  | inr other ↦ rw other (elim (Bool-cases (tipo == "PERCENTUAL")) [
    | inl part ↦ rw part (map-users _ users (λ u. refl))
    | inr neither ↦ rw neither refl
  ])
]

-- A preview of a stored split needs a list of users that is not empty. It has one share for each user
-- of the list, in its order, where the split is of one of the three kinds, and no share otherwise; and
-- its total is the stored value of the split, or zero for a split by items.
pub preview_of_stored :
    (env : Env) (id user : String) (users : List String) (w : World) (p : PreviewResult)
    → (preview_rateio env id user users w).0 ≡ ok p
    → (users ≢ [])
      × (d : RateioDocument) × (find (is_rateio id) w.rateios ≡ some d)
      × (map (λ x. x.usuario_id) p.participantes
          ≡ (if has_shares d.tipo_cobranca then users else []))
      × (p.total_geral
          ≡ (if d.tipo_cobranca == "ITENS" then 0 else env.floats.of_int64 d.valor_rateado))
unfolding preview_rateio pure preview_total items_total rateio_doc_to_domain
preview_of_stored env id user users w p h =
    let (r, got, rest) = bind-eq-ok (get_rateio env id user) _ w p h in
    let (d, found, loaded, owner) = get_rateio-found env id user w r got in
    let (_, passed, made) = bind-eq-ok (raise_if _ _) _ _ p rest in
    (
      none_listed users r _ _ (ap (λ x. x.numero_participantes) loaded) passed,
      d,
      found,
      ap (λ x. map (λ y. y.usuario_id) x.participantes) (sym (ok_inj made))
          ∙ shares-users env.floats r.tipo _ _ users
          ∙ ap (λ x. if has_shares x.tipo then users else []) loaded,
      ap (λ x. x.total_geral) (sym (ok_inj made)) ∙ ap (preview_total env.floats) loaded,
    )
