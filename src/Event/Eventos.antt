-- ===== src/Event/Eventos.antt =====
-- internal/adapter/mongodb/evento.go: the collection eventos; and the registration of the organiser in
-- internal/adapter/mongodb/participant.go.
use backend_go_role_organiza.Prelude.{
  ℕ, String, ◌==◌, Bool, not, Option, none, some, List, [], ◌∷◌, ◌++◌, int32, find, any,
  update_first, drop_first, is_set, if◌then◌else◌,
}
use backend_go_role_organiza.ApiErr.{internal, not_found, plain, wrapped}
use backend_go_role_organiza.Event.Domain.{Evento, EventoDocument, Convidado}
use backend_go_role_organiza.World.{
  Env, Action, pure, gets, modify, or_raise, ◌>>=◌, ◌>>◌, raise_if, time_now, new_uuid, driver,
}

abbrev pub map_option : {A B : Type 0} → (A → B) → Option A → Option B
map_option f none = none
map_option f (some a) = some (f a)

-- The fields that a document does not have are read as empty.
unfoldable pub evento_from_doc : EventoDocument → Evento
evento_from_doc doc = record {
  id = doc.id;
  usuario_id = doc.usuario_id_responsavel;
  nome = doc.nome;
  tipo = doc.tipo;
  data_evento = doc.data_inicio;
  descricao = doc.descricao;
  local = doc.local;
  foto_url = "";
  status = doc.status;
  convidados_ids = [];
  politica_convidados = doc.politica_convidados;
  limite_convidados = doc.limite_convidados;
  rateios_habilitado = doc.rateios_habilitado;
  tipo_divisao_rateio = "";
  pagamentos_habilitado = doc.pagamentos_habilitado;
  metodos_pagamento = [];
  prazo_pagamento = none;
  regras_customizadas = "";
  politica_cancelamento = doc.politica_cancelamento;
  modulos_ativos = doc.modulos_ativos;
  configuracao_nicho = doc.configuracao_nicho;
  criado_em = doc.criado_em;
  updated_at = doc.atualizado_em;
}

abbrev pub is_evento : String → EventoDocument → Bool
is_evento id e = e.id == id

-- The document that `Save` inserts.
unfoldable pub new_evento_doc : String → ℕ → Evento → EventoDocument
unfolding int32
new_evento_doc id now e = record {
  id = id;
  nome = e.nome;
  tipo = e.tipo;
  data_inicio = e.data_evento;
  usuario_id_responsavel = e.usuario_id;
  descricao = e.descricao;
  local = e.local;
  status = if is_set e.status then e.status else "CONFIRMADO";
  limite_convidados = map_option int32 e.limite_convidados;
  politica_convidados = e.politica_convidados;
  politica_cancelamento = e.politica_cancelamento;
  rateios_habilitado = e.rateios_habilitado;
  pagamentos_habilitado = e.pagamentos_habilitado;
  convidados = [];
  modulos_ativos = [];
  configuracao_nicho = "";
  criado_em = now;
  atualizado_em = now;
}

-- What `$set` writes: neither the guest limit nor the owner.
unfoldable pub set_evento : Evento → ℕ → EventoDocument → EventoDocument
set_evento e now d = record d {
  nome = e.nome;
  tipo = e.tipo;
  data_inicio = e.data_evento;
  descricao = e.descricao;
  local = e.local;
  status = e.status;
  politica_convidados = e.politica_convidados;
  politica_cancelamento = e.politica_cancelamento;
  rateios_habilitado = e.rateios_habilitado;
  pagamentos_habilitado = e.pagamentos_habilitado;
  atualizado_em = now;
}

-- The document that the database keeps: its times are BSON dates.
abbrev pub kept_evento : Env → EventoDocument → EventoDocument
kept_evento env d = record d {
  data_inicio = env.bson_date d.data_inicio;
  criado_em = env.bson_date d.criado_em;
  atualizado_em = env.bson_date d.atualizado_em;
}

-- The event as `$set` encodes it.
abbrev pub kept_date : Env → Evento → Evento
kept_date env e = record e { data_evento = env.bson_date e.data_evento }

module _ (env : Env) where
  unfoldable pub find_evento : String → Action Evento
  unfolding evento_from_doc
  find_evento id = do
    driver env internal
    found ← gets (λ w. find (is_evento id) w.eventos)
    doc ← or_raise found (not_found "evento" id)
    pure (evento_from_doc doc)

  unfoldable pub save_evento : Evento → Action Evento
  unfolding new_evento_doc evento_from_doc
  save_evento e = do
    id ← new_uuid env
    now ← time_now env
    driver env internal
    modify λ w. record w { eventos = w.eventos ++ kept_evento env (new_evento_doc id now e) ∷ [] }
    pure (evento_from_doc (new_evento_doc id now e))

  unfoldable pub write_evento : Evento → Action Evento
  unfolding set_evento
  write_evento e = do
    now ← time_now env
    driver env internal
    found ← gets (λ w. any (is_evento e.id) w.eventos)
    raise_if (not found) (not_found "evento" e.id)
    modify λ w. record w {
      eventos =
          update_first (is_evento e.id) (set_evento (kept_date env e) (env.bson_date now))
            w.eventos;
    }
    pure (record e { updated_at = now })

  unfoldable pub erase_evento : String → Action (Unit {0})
  erase_evento id = do
    driver env internal
    found ← gets (λ w. any (is_evento id) w.eventos)
    raise_if (not found) (not_found "evento" id)
    modify λ w. record w { eventos = drop_first (is_evento id) w.eventos }

  unfoldable pub push_convidados : String → List Convidado → Action (Unit {0})
  push_convidados id convidados = do
    driver env internal
    found ← gets (λ w. any (is_evento id) w.eventos)
    raise_if (not found) (not_found "evento" id)
    modify λ w. record w {
      eventos =
          update_first (is_evento id) (λ e. record e { convidados = e.convidados ++ convidados })
            w.eventos;
    }

  unfoldable pub save_organizador : String → String → Action (Unit {0})
  save_organizador evento_id usuario_id = do
    id ← new_uuid env
    now ← time_now env
    driver env (λ reason. wrapped "salvar participante organizador" (plain reason))
    modify λ w. record w {
      participants =
          w.participants
          ++ record {
            id = id;
            event_id = evento_id;
            user_id = usuario_id;
            name = "";
            email = "";
            status = "CONFIRMADO";
          }
            ∷ [];
    }
