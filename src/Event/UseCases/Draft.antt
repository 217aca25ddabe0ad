-- ===== src/Event/UseCases/Draft.antt =====
-- internal/usecase/event/draft.go.
use backend_go_role_organiza.Prelude.{
  ℕ, String, Bool, false, not, Option, none, some, List, [], ◌∷◌, ℤ, pos, is_set, is_some,
  if◌then◌else◌,
}
use backend_go_role_organiza.ApiErr.{forbidden, conflict}
use backend_go_role_organiza.Event.Domain.{
  EventoDraft, DraftRateioItem, Evento, draft_is_owner, has_conflict,
}
use backend_go_role_organiza.Event.Drafts.{
  find_draft, find_drafts_of_usuario, save_draft, replace_draft, erase_draft,
}
use backend_go_role_organiza.Event.Eventos.{save_evento}
use backend_go_role_organiza.World.{Env, Action, pure, ignore, ◌>>=◌, ◌>>◌, raise_if, time_now}

-- `UpsertDraftInput`: what is none is left as it is.
pub record UpsertDraftInput : Type 0 where
  pub nome : Option String
  pub tipo : Option String
  pub data_evento : Option ℕ
  pub descricao : Option String
  pub local : Option String
  pub convidados_ids : Option (List String)
  pub politica_convidados : Option String
  pub limite_convidados : Option ℤ
  pub rateios_habilitado : Option Bool
  pub rateios_itens : Option (List DraftRateioItem)
  pub tipo_divisao_rateio : Option String
  pub pagamentos_habilitado : Option Bool
  pub metodos_pagamento : Option (List String)
  pub prazo_pagamento : Option ℕ
  pub regras_customizadas : Option String
  pub politica_cancelamento : Option String
  pub etapa_atual : Option ℤ
  pub etapas_completas : Option (List ℤ)
  pub last_read_at : Option ℕ

-- `if in.X != nil { d.X = *in.X }`
abbrev pub given : {A : Type 0} → Option A → A → A
given none a = a
given (some b) a = b

-- The same for a field that may be nil itself.
abbrev pub given_some : {A : Type 0} → Option A → Option A → Option A
given_some none o = o
given_some (some b) o = some b

abbrev pub empty_draft : String → ℕ → EventoDraft
empty_draft usuario_id now = record {
  id = "";
  usuario_id = usuario_id;
  nome = "";
  tipo = "";
  data_evento = none;
  descricao = "";
  local = "";
  convidados_ids = [];
  politica_convidados = "";
  limite_convidados = none;
  rateios_habilitado = false;
  rateios_itens = [];
  tipo_divisao_rateio = "";
  pagamentos_habilitado = false;
  metodos_pagamento = [];
  prazo_pagamento = none;
  regras_customizadas = "";
  politica_cancelamento = "";
  modulos_ativos = [];
  configuracao_nicho = "";
  etapa_atual = pos 0;
  etapas_completas = [];
  criado_em = now;
  updated_at = now;
}

abbrev pub edited_draft : UpsertDraftInput → ℕ → EventoDraft → EventoDraft
edited_draft input now d = record d {
  nome = given input.nome d.nome;
  tipo = given input.tipo d.tipo;
  data_evento = given_some input.data_evento d.data_evento;
  descricao = given input.descricao d.descricao;
  local = given input.local d.local;
  convidados_ids = given input.convidados_ids d.convidados_ids;
  politica_convidados = given input.politica_convidados d.politica_convidados;
  limite_convidados = given_some input.limite_convidados d.limite_convidados;
  rateios_habilitado = given input.rateios_habilitado d.rateios_habilitado;
  rateios_itens = given input.rateios_itens d.rateios_itens;
  tipo_divisao_rateio = given input.tipo_divisao_rateio d.tipo_divisao_rateio;
  pagamentos_habilitado = given input.pagamentos_habilitado d.pagamentos_habilitado;
  metodos_pagamento = given input.metodos_pagamento d.metodos_pagamento;
  prazo_pagamento = given_some input.prazo_pagamento d.prazo_pagamento;
  regras_customizadas = given input.regras_customizadas d.regras_customizadas;
  politica_cancelamento = given input.politica_cancelamento d.politica_cancelamento;
  etapa_atual = given input.etapa_atual d.etapa_atual;
  etapas_completas = given input.etapas_completas d.etapas_completas;
  updated_at = now;
}

-- `in.LastReadAt != nil && d.HasConflict(*in.LastReadAt)`
unfoldable pub is_stale : Option ℕ → EventoDraft → Bool
unfolding has_conflict
is_stale none d = false
is_stale (some t) d = has_conflict d t

-- `portin.ValidationResult`
pub record ValidationResult : Type 0 where
  pub field_name : String
  pub valid : Bool
  pub message : String

abbrev pub non_empty_msg : Bool → String → String
non_empty_msg valid msg = if valid then "" else msg

unfoldable pub validations : EventoDraft → List ValidationResult
validations d =
    check "nome" (is_set d.nome) "Título é obrigatório"
    ∷ check "tipo" (is_set d.tipo) "Tipo do evento é obrigatório"
    ∷ check "data" (is_some d.data_evento) "Data do evento é obrigatória"
    ∷ check "local" (is_set d.local) "Local é obrigatório"
    ∷ []
  where
    check : String → Bool → String → ValidationResult
    check name valid msg = record {
      field_name = name;
      valid = valid;
      message = non_empty_msg valid msg;
    }

-- The event that a draft becomes. The zero time stands for a draft without a date.
abbrev pub published : EventoDraft → ℕ → Evento
published d now = record {
  id = "";
  usuario_id = d.usuario_id;
  nome = d.nome;
  tipo = d.tipo;
  data_evento = given d.data_evento 0;
  descricao = d.descricao;
  local = d.local;
  foto_url = "";
  status = "PUBLICADO";
  convidados_ids = d.convidados_ids;
  politica_convidados = d.politica_convidados;
  limite_convidados = d.limite_convidados;
  rateios_habilitado = d.rateios_habilitado;
  tipo_divisao_rateio = d.tipo_divisao_rateio;
  pagamentos_habilitado = d.pagamentos_habilitado;
  metodos_pagamento = d.metodos_pagamento;
  prazo_pagamento = d.prazo_pagamento;
  regras_customizadas = d.regras_customizadas;
  politica_cancelamento = d.politica_cancelamento;
  modulos_ativos = [];
  configuracao_nicho = "";
  criado_em = now;
  updated_at = now;
}

module _ (env : Env) where
  unfoldable pub create_draft : String → Action EventoDraft
  unfolding save_draft
  create_draft usuario_id = do now ← time_now env; save_draft env (empty_draft usuario_id now)

  -- `FindByID` and the check of the owner, with which the other use cases begin.
  unfoldable pub get_draft : String → String → Action EventoDraft
  unfolding find_draft draft_is_owner
  get_draft id requester_id = do
    d ← find_draft env id
    raise_if (not (draft_is_owner d requester_id)) (forbidden "acesso negado")
    pure d

  unfoldable pub list_drafts : String → Action (List EventoDraft)
  unfolding find_drafts_of_usuario
  list_drafts usuario_id = find_drafts_of_usuario env usuario_id

  unfoldable pub update_draft : String → String → UpsertDraftInput → Action EventoDraft
  unfolding get_draft replace_draft
  update_draft id requester_id input = do
    d ← get_draft id requester_id
    raise_if (is_stale input.last_read_at d)
        (conflict "draft foi modificado por outro processo. Recarregue antes de salvar.")
    now ← time_now env
    replace_draft env (edited_draft input now d)

  unfoldable pub delete_draft : String → String → Action (Unit {0})
  unfolding get_draft erase_draft
  delete_draft id requester_id = do get_draft id requester_id; erase_draft env id

  unfoldable pub validate_draft : String → String → Action (List ValidationResult)
  unfolding get_draft validations
  validate_draft id requester_id = do d ← get_draft id requester_id; pure (validations d)

  -- The draft is removed after its event is saved; a failure of the removal is not reported.
  unfoldable pub publish_draft : String → String → Action Evento
  unfolding get_draft save_evento erase_draft
  publish_draft id requester_id = do
    d ← get_draft id requester_id
    now ← time_now env
    saved ← save_evento env (published d now)
    ignore (erase_draft env id)
    pure saved
