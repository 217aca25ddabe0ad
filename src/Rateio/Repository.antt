-- ===== src/Rateio/Repository.antt =====
-- internal/adapter/mongodb/rateio.go: the collections rateios and rateio_fechamentos. The identifier
-- of a split is compared by its text.
use backend_go_role_organiza.Prelude.{
  ℕ, String, ◌==◌, Bool, false, not, List, [], ◌∷◌, ◌++◌, map, find, any, eqb, pos, ltb, select,
  update_first, drop_first, sort_by, join, if◌then◌else◌,
}
use backend_go_role_organiza.ApiErr.{internal, not_found}
use backend_go_role_organiza.Rateio.Domain.{Rateio, RateioDocument, RateioFechamento, StatusRateio}
use backend_go_role_organiza.World.{
  Env, FloatOps, Action, pure, gets, modify, or_raise, ◌>>=◌, ◌>>◌, raise_if, time_now, new_uuid,
  new_object_id, uuid_binary, driver,
}

unfoldable pub status_to_mongo : StatusRateio → String
status_to_mongo StatusRateio.fechado = "CANCELADO"
status_to_mongo StatusRateio.aberto = "ATIVO"

unfoldable pub status_from_mongo : String → StatusRateio
status_from_mongo s = if s == "CANCELADO" then StatusRateio.fechado else StatusRateio.aberto

-- The event is stored as a UUID: a random one where its identifier is none. The owner is stored as
-- the text, the ObjectID or the UUID that it is, and is read as that text.
unfoldable pub rateio_doc_from_domain : Env → Rateio → Action RateioDocument
unfolding status_to_mongo
rateio_doc_from_domain env r = do
  evento ← uuid_binary env r.evento_id
  pure (record {
    id = "";
    evento_id = evento;
    usuario_id_responsavel = r.usuario_id;
    nome = r.descricao;
    tipo_cobranca = r.tipo;
    valor_rateado = env.floats.to_int64 r.valor_total;
    status = status_to_mongo r.status;
    pendente_recalculo = false;
    criado_em = r.criado_em;
    atualizado_em = r.updated_at;
  })

-- The document that the database keeps: its times are BSON dates.
abbrev pub kept_rateio : Env → RateioDocument → RateioDocument
kept_rateio env d = record d {
  criado_em = env.bson_date d.criado_em;
  atualizado_em = env.bson_date d.atualizado_em;
}

-- The document has no items and no number of participants, so the entity that is read has none.
unfoldable pub rateio_doc_to_domain : FloatOps → RateioDocument → Rateio
unfolding status_from_mongo
rateio_doc_to_domain floats doc = record {
  id = doc.id;
  evento_id = doc.evento_id;
  usuario_id = doc.usuario_id_responsavel;
  tipo = doc.tipo_cobranca;
  status = status_from_mongo doc.status;
  descricao = doc.nome;
  valor_total = floats.of_int64 doc.valor_rateado;
  numero_participantes = pos 0;
  itens = [];
  criado_em = doc.criado_em;
  updated_at = doc.atualizado_em;
}

abbrev pub is_rateio : String → RateioDocument → Bool
is_rateio id d = d.id == id

-- What `$set` writes.
unfoldable pub set_rateio : FloatOps → Rateio → ℕ → RateioDocument → RateioDocument
unfolding status_to_mongo
set_rateio floats r now d = record d {
  tipo_cobranca = r.tipo;
  valor_rateado = floats.to_int64 r.valor_total;
  status = status_to_mongo r.status;
  nome = r.descricao;
  atualizado_em = now;
}

-- `if t.IsZero() { t = now }`
abbrev pub or_now : ℕ → ℕ → ℕ
or_now t now = if eqb t 0 then now else t

module _ (env : Env) where
  unfoldable pub find_rateio : String → Action Rateio
  unfolding rateio_doc_to_domain
  find_rateio id = do
    driver env internal
    found ← gets (λ w. find (is_rateio id) w.rateios)
    doc ← or_raise found (not_found "rateio" id)
    pure (rateio_doc_to_domain env.floats doc)

  unfoldable pub find_rateios_of_evento : String → Action (List Rateio)
  unfolding rateio_doc_to_domain
  find_rateios_of_evento evento_id = do
    evento ← uuid_binary env evento_id
    driver env internal
    gets λ w. map (rateio_doc_to_domain env.floats) (select (λ d. d.evento_id == evento) w.rateios)

  unfoldable pub save_rateio : Rateio → Action Rateio
  unfolding rateio_doc_from_domain
  save_rateio r = do
    id ← new_uuid env
    now ← time_now env
    let saved : Rateio = record r { criado_em = or_now r.criado_em now; updated_at = now }
    doc ← rateio_doc_from_domain env saved
    driver env (λ reason. internal (join ("saving rateio: " ∷ reason ∷ [])))
    modify λ w. record w { rateios = w.rateios ++ kept_rateio env (record doc { id = id }) ∷ [] }
    pure (record saved { id = id })

  unfoldable pub write_rateio : Rateio → Action Rateio
  unfolding set_rateio
  write_rateio r = do
    now ← time_now env
    driver env internal
    found ← gets (λ w. any (is_rateio r.id) w.rateios)
    raise_if (not found) (not_found "rateio" r.id)
    modify λ w. record w {
      rateios =
          update_first (is_rateio r.id) (set_rateio env.floats r (env.bson_date now)) w.rateios;
    }
    pure (record r { updated_at = now })

  unfoldable pub erase_rateio : String → Action (Unit {0})
  erase_rateio id = do
    driver env internal
    found ← gets (λ w. any (is_rateio id) w.rateios)
    raise_if (not found) (not_found "rateio" id)
    modify λ w. record w { rateios = drop_first (is_rateio id) w.rateios }

  -- Sorted by version, the lowest first.
  unfoldable pub find_fechamentos : String → Action (List RateioFechamento)
  unfolding sort_by
  find_fechamentos rateio_id = do
    driver env internal
    gets λ w.
        sort_by (λ y x. ltb y.versao x.versao)
          (select (λ f. f.rateio_id == rateio_id) w.fechamentos)

  unfoldable pub save_fechamento : RateioFechamento → Action RateioFechamento
  save_fechamento f = do
    id ← new_object_id env
    driver env internal
    modify λ w. record w { fechamentos = w.fechamentos ++ record f { id = id } ∷ [] }
    pure (record f { id = id })
