-- ===== src/Event/UseCases/Published.antt =====
-- internal/usecase/event/evento.go, without the listings.
use backend_go_role_organiza.Prelude.{
  ℕ, String, Bool, not, Option, List, [], ◌∷◌, ℤ, is_set, if◌then◌else◌,
}
use backend_go_role_organiza.ApiErr.{forbidden, bad_request}
use backend_go_role_organiza.Event.Domain.{Evento, Convidado, evento_is_owner, evento_can_edit}
use backend_go_role_organiza.Event.Eventos.{
  find_evento, save_evento, write_evento, erase_evento, push_convidados, save_organizador,
}
use backend_go_role_organiza.Event.UseCases.Draft.{given, given_some}
use backend_go_role_organiza.World.{Env, Action, pure, ignore, ◌>>=◌, ◌>>◌, raise_if, time_now}

-- `UpdateEventoInput`: an empty text and an absent value leave the field as it is.
pub record UpdateEventoInput : Type 0 where
  pub nome : String
  pub tipo : String
  pub data_evento : Option ℕ
  pub descricao : String
  pub local : String
  pub foto_url : String
  pub politica_convidados : String
  pub limite_convidados : Option ℤ
  pub rateios_habilitado : Option Bool
  pub tipo_divisao_rateio : String
  pub pagamentos_habilitado : Option Bool
  pub metodos_pagamento : List String
  pub prazo_pagamento : Option ℕ
  pub regras_customizadas : String
  pub politica_cancelamento : String

abbrev pub set_or : String → String → String
set_or s old = if is_set s then s else old

abbrev pub listed_or : List String → List String → List String
listed_or [] old = old
listed_or (s ∷ ss) old = s ∷ ss

abbrev pub edited_evento : UpdateEventoInput → ℕ → Evento → Evento
edited_evento input now e = record e {
  nome = set_or input.nome e.nome;
  tipo = set_or input.tipo e.tipo;
  data_evento = given input.data_evento e.data_evento;
  descricao = set_or input.descricao e.descricao;
  local = set_or input.local e.local;
  foto_url = set_or input.foto_url e.foto_url;
  politica_convidados = set_or input.politica_convidados e.politica_convidados;
  limite_convidados = given_some input.limite_convidados e.limite_convidados;
  rateios_habilitado = given input.rateios_habilitado e.rateios_habilitado;
  tipo_divisao_rateio = set_or input.tipo_divisao_rateio e.tipo_divisao_rateio;
  pagamentos_habilitado = given input.pagamentos_habilitado e.pagamentos_habilitado;
  metodos_pagamento = listed_or input.metodos_pagamento e.metodos_pagamento;
  prazo_pagamento = given_some input.prazo_pagamento e.prazo_pagamento;
  regras_customizadas = set_or input.regras_customizadas e.regras_customizadas;
  politica_cancelamento = set_or input.politica_cancelamento e.politica_cancelamento;
  updated_at = now;
}

module _ (env : Env) where
  -- `CreateEventoInput` as the event that is made of it, whose status is PUBLICADO.
  unfoldable pub create_evento : Evento → Action Evento
  unfolding save_evento save_organizador
  create_evento input = do
    now ← time_now env
    saved ←
        save_evento env (record input { status = "PUBLICADO"; criado_em = now; updated_at = now })
    ignore (save_organizador env saved.id input.usuario_id)
    pure saved

  unfoldable pub get_evento : String → Action Evento
  unfolding find_evento
  get_evento id = find_evento env id

  -- `FindByID` and the check of the owner.
  unfoldable pub owned_evento : String → String → Action Evento
  unfolding find_evento evento_is_owner
  owned_evento id requester_id = do
    e ← find_evento env id
    raise_if (not (evento_is_owner e requester_id)) (forbidden "acesso negado")
    pure e

  unfoldable pub update_evento : String → String → UpdateEventoInput → Action Evento
  unfolding owned_evento evento_can_edit write_evento
  update_evento id requester_id input = do
    e ← owned_evento id requester_id
    raise_if (not (evento_can_edit e)) (bad_request "evento não pode ser editado no status atual")
    now ← time_now env
    write_evento env (edited_evento input now e)

  unfoldable pub delete_evento : String → String → Action (Unit {0})
  unfolding owned_evento erase_evento
  delete_evento id requester_id = do owned_evento id requester_id; erase_evento env id

  unfoldable pub add_convidados : String → List Convidado → Action (Unit {0})
  unfolding push_convidados
  add_convidados evento_id [] = pure tt
  add_convidados evento_id (c ∷ cs) = push_convidados env evento_id (c ∷ cs)
