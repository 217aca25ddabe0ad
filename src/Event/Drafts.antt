-- ===== src/Event/Drafts.antt =====
-- internal/adapter/mongodb/evento_draft.go: the collection eventos_draft.
use backend_go_role_organiza.Prelude.{
  ℕ, String, ◌==◌, Bool, not, Option, none, some, List, [], ◌∷◌, ◌++◌, map, find, any, eqb, ltb,
  select, update_first, drop_first, sort_by, is_set, if◌then◌else◌,
}
use backend_go_role_organiza.ApiErr.{internal, not_found}
use backend_go_role_organiza.Event.Domain.{EventoDraft, EventoDraftDocument}
use backend_go_role_organiza.World.{
  Env, Action, pure, gets, modify, or_raise, ◌>>=◌, ◌>>◌, raise_if, time_now, new_object_id, driver,
}

-- The first of the stored rules.
abbrev pub first_rule : List String → String
first_rule [] = ""
first_rule (r ∷ rs) = r

-- The nil slices of a document are read as empty ones, which are the same list here.
unfoldable pub draft_from_doc : EventoDraftDocument → EventoDraft
draft_from_doc doc = record {
  id = doc.id;
  usuario_id = doc.usuario_id;
  nome = doc.nome;
  tipo = doc.tipo;
  data_evento = doc.data_evento;
  descricao = doc.descricao;
  local = doc.local;
  convidados_ids = doc.convidados_ids;
  politica_convidados = doc.politica_convidados;
  limite_convidados = doc.limite_convidados;
  rateios_habilitado = doc.rateios_habilitado;
  rateios_itens = doc.rateios_itens;
  tipo_divisao_rateio = doc.tipo_divisao_rateio;
  pagamentos_habilitado = doc.pagamentos_habilitado;
  metodos_pagamento = doc.metodos_pagamento;
  prazo_pagamento = doc.prazo_pagamento;
  regras_customizadas = first_rule doc.regras_customizadas;
  politica_cancelamento = doc.politica_cancelamento;
  modulos_ativos = doc.modulos_ativos;
  configuracao_nicho = doc.configuracao_nicho;
  etapa_atual = doc.etapa_atual;
  etapas_completas = doc.etapas_completas;
  criado_em = doc.criado_em;
  updated_at = doc.atualizado_em;
}

-- The identifier is set by the caller.
unfoldable pub draft_to_doc : EventoDraft → EventoDraftDocument
draft_to_doc d = record {
  id = "";
  usuario_id = d.usuario_id;
  nome = d.nome;
  tipo = d.tipo;
  data_evento = d.data_evento;
  descricao = d.descricao;
  local = d.local;
  convidados_ids = d.convidados_ids;
  politica_convidados = d.politica_convidados;
  limite_convidados = d.limite_convidados;
  rateios_habilitado = d.rateios_habilitado;
  rateios_itens = d.rateios_itens;
  tipo_divisao_rateio = d.tipo_divisao_rateio;
  pagamentos_habilitado = d.pagamentos_habilitado;
  metodos_pagamento = d.metodos_pagamento;
  prazo_pagamento = d.prazo_pagamento;
  regras_customizadas = if is_set d.regras_customizadas then d.regras_customizadas ∷ [] else [];
  politica_cancelamento = d.politica_cancelamento;
  modulos_ativos = d.modulos_ativos;
  configuracao_nicho = d.configuracao_nicho;
  etapa_atual = d.etapa_atual;
  etapas_completas = d.etapas_completas;
  criado_em = d.criado_em;
  atualizado_em = d.updated_at;
}

abbrev pub is_draft : String → EventoDraftDocument → Bool
is_draft id d = d.id == id

-- The document that `Save` and `Update` write, before it is encoded.
abbrev pub stored_draft : String → ℕ → EventoDraft → EventoDraftDocument
unfolding draft_to_doc
stored_draft id now d = record (draft_to_doc d) { id = id; atualizado_em = now }

abbrev pub kept_time : Env → Option ℕ → Option ℕ
kept_time env none = none
kept_time env (some t) = some (env.bson_date t)

-- The document that the database keeps: its times are BSON dates.
unfoldable pub kept_draft : Env → EventoDraftDocument → EventoDraftDocument
kept_draft env doc = record doc {
  data_evento = kept_time env doc.data_evento;
  prazo_pagamento = kept_time env doc.prazo_pagamento;
  criado_em = env.bson_date doc.criado_em;
  atualizado_em = env.bson_date doc.atualizado_em;
}

module _ (env : Env) where
  unfoldable pub find_draft : String → Action EventoDraft
  unfolding draft_from_doc
  find_draft id = do
    raise_if (not (env.is_object_id id)) (not_found "draft" id)
    driver env internal
    found ← gets (λ w. find (is_draft id) w.drafts)
    doc ← or_raise found (not_found "draft" id)
    pure (draft_from_doc doc)

  -- Sorted by the last update, the newest first.
  unfoldable pub find_drafts_of_usuario : String → Action (List EventoDraft)
  unfolding draft_from_doc sort_by
  find_drafts_of_usuario usuario_id = do
    driver env internal
    gets λ w. map draft_from_doc (
        sort_by (λ y x. ltb x.atualizado_em y.atualizado_em)
          (select (λ d. d.usuario_id == usuario_id) w.drafts))

  unfoldable pub save_draft : EventoDraft → Action EventoDraft
  unfolding draft_from_doc draft_to_doc kept_draft
  save_draft d = do
    id ← new_object_id env
    now ← time_now env
    let doc : EventoDraftDocument =
        stored_draft id now
          (record d { criado_em = if eqb d.criado_em 0 then now else d.criado_em })
    driver env internal
    modify λ w. record w { drafts = w.drafts ++ kept_draft env doc ∷ [] }
    pure (draft_from_doc doc)

  -- `ReplaceOne`: the count of matched documents is not looked at.
  unfoldable pub replace_draft : EventoDraft → Action EventoDraft
  unfolding draft_to_doc kept_draft
  replace_draft d = do
    raise_if (not (env.is_object_id d.id)) (not_found "draft" d.id)
    now ← time_now env
    driver env internal
    modify λ w. record w {
      drafts =
          update_first (is_draft d.id) (λ _. kept_draft env (stored_draft d.id now d)) w.drafts;
    }
    pure d

  unfoldable pub erase_draft : String → Action (Unit {0})
  erase_draft id = do
    raise_if (not (env.is_object_id id)) (not_found "draft" id)
    driver env internal
    found ← gets (λ w. any (is_draft id) w.drafts)
    raise_if (not found) (not_found "draft" id)
    modify λ w. record w { drafts = drop_first (is_draft id) w.drafts }
