-- ===== src/Event/Domain.antt =====
-- internal/domain/event, and the documents of internal/adapter/mongodb/evento.go and evento_draft.go.
-- The free-form niche configuration is kept by its serialised text.
use backend_go_role_organiza.Prelude.{ℕ, String, ◌==◌, Bool, ◌||◌, Option, List, ℤ, any, eqb_ℤ}
use backend_go_role_organiza.Prelude.{ltb, if◌then◌else◌, [], ◌∷◌, ◌++◌}
use backend_go_role_organiza.Payment.Domain.{Float64}

pub record Convidado : Type 0 where
  pub telefone : String
  pub nome : String

pub record Evento : Type 0 where
  pub id : String
  pub usuario_id : String
  pub nome : String
  pub tipo : String
  pub data_evento : ℕ
  pub descricao : String
  pub local : String
  pub foto_url : String
  pub status : String
  pub convidados_ids : List String
  pub politica_convidados : String
  pub limite_convidados : Option ℤ
  pub rateios_habilitado : Bool
  pub tipo_divisao_rateio : String
  pub pagamentos_habilitado : Bool
  pub metodos_pagamento : List String
  pub prazo_pagamento : Option ℕ
  pub regras_customizadas : String
  pub politica_cancelamento : String
  pub modulos_ativos : List String
  pub configuracao_nicho : String
  pub criado_em : ℕ
  pub updated_at : ℕ

-- `eventoDocument`, without the end date and the image, which the repository does not use.
pub record EventoDocument : Type 0 where
  pub id : String
  pub nome : String
  pub tipo : String
  pub data_inicio : ℕ
  pub usuario_id_responsavel : String
  pub descricao : String
  pub local : String
  pub status : String
  pub limite_convidados : Option ℤ
  pub politica_convidados : String
  pub politica_cancelamento : String
  pub rateios_habilitado : Bool
  pub pagamentos_habilitado : Bool
  pub convidados : List Convidado
  pub modulos_ativos : List String
  pub configuracao_nicho : String
  pub criado_em : ℕ
  pub atualizado_em : ℕ

-- `RateioItem` of a draft
pub record DraftRateioItem : Type 0 where
  pub descricao : String
  pub valor : Float64
  pub quantidade : ℤ

pub record EventoDraft : Type 0 where
  pub id : String
  pub usuario_id : String
  pub nome : String
  pub tipo : String
  pub data_evento : Option ℕ
  pub descricao : String
  pub local : String
  pub convidados_ids : List String
  pub politica_convidados : String
  pub limite_convidados : Option ℤ
  pub rateios_habilitado : Bool
  pub rateios_itens : List DraftRateioItem
  pub tipo_divisao_rateio : String
  pub pagamentos_habilitado : Bool
  pub metodos_pagamento : List String
  pub prazo_pagamento : Option ℕ
  pub regras_customizadas : String
  pub politica_cancelamento : String
  pub modulos_ativos : List String
  pub configuracao_nicho : String
  pub etapa_atual : ℤ
  pub etapas_completas : List ℤ
  pub criado_em : ℕ
  pub updated_at : ℕ

-- `eventoDraftDocument`: the custom rules are a list here.
pub record EventoDraftDocument : Type 0 where
  pub id : String
  pub usuario_id : String
  pub nome : String
  pub tipo : String
  pub data_evento : Option ℕ
  pub descricao : String
  pub local : String
  pub convidados_ids : List String
  pub politica_convidados : String
  pub limite_convidados : Option ℤ
  pub rateios_habilitado : Bool
  pub rateios_itens : List DraftRateioItem
  pub tipo_divisao_rateio : String
  pub pagamentos_habilitado : Bool
  pub metodos_pagamento : List String
  pub prazo_pagamento : Option ℕ
  pub regras_customizadas : List String
  pub politica_cancelamento : String
  pub modulos_ativos : List String
  pub configuracao_nicho : String
  pub etapa_atual : ℤ
  pub etapas_completas : List ℤ
  pub criado_em : ℕ
  pub atualizado_em : ℕ

unfoldable pub evento_is_owner : Evento → String → Bool
evento_is_owner e user_id = e.usuario_id == user_id

unfoldable pub evento_can_edit : Evento → Bool
evento_can_edit e = e.status == "RASCUNHO" || e.status == "PUBLICADO"

unfoldable pub draft_is_owner : EventoDraft → String → Bool
draft_is_owner d user_id = d.usuario_id == user_id

unfoldable pub is_etapa_completa : EventoDraft → ℤ → Bool
is_etapa_completa d etapa = any (λ e. eqb_ℤ e etapa) d.etapas_completas

unfoldable pub etapa_completa : EventoDraft → ℤ → EventoDraft
unfolding is_etapa_completa
etapa_completa d etapa =
    if is_etapa_completa d etapa
    then d
    else record d { etapas_completas = d.etapas_completas ++ etapa ∷ [] }

unfoldable pub has_conflict : EventoDraft → ℕ → Bool
has_conflict d last_read_at = ltb last_read_at d.updated_at
