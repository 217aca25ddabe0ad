-- ===== src/Rateio/Domain.antt =====
-- internal/domain/rateio, and the document of internal/adapter/mongodb/rateio.go.
use backend_go_role_organiza.Prelude.{ℕ, String, ◌==◌, Bool, true, false, Option, List, ℤ}
use backend_go_role_organiza.Payment.Domain.{Float64}

pub data StatusRateio : Type 0 where
  aberto fechado : StatusRateio

pub record RateioItem : Type 0 where
  pub descricao : String
  pub valor : Float64
  pub quantidade : ℤ
  pub total : Float64
  pub criado_em : ℕ
  pub updated_at : ℕ

pub record Rateio : Type 0 where
  pub id : String
  pub evento_id : String
  pub usuario_id : String
  pub tipo : String
  pub status : StatusRateio
  pub descricao : String
  pub valor_total : Float64
  pub numero_participantes : ℤ
  pub itens : List RateioItem
  pub criado_em : ℕ
  pub updated_at : ℕ

-- `rateioDocument`
pub record RateioDocument : Type 0 where
  pub id : String
  pub evento_id : String
  pub usuario_id_responsavel : String
  pub nome : String
  pub tipo_cobranca : String
  pub valor_rateado : ℤ
  pub status : String
  pub pendente_recalculo : Bool
  pub criado_em : ℕ
  pub atualizado_em : ℕ

pub record PreviewParticipante : Type 0 where
  pub usuario_id : String
  pub valor : Float64
  pub percentual : Float64

pub record PreviewResult : Type 0 where
  pub rateio_id : String
  pub total_geral : Float64
  pub participantes : List PreviewParticipante

pub record FechamentoParticipante : Type 0 where
  pub usuario_id : String
  pub valor : Float64
  pub percentual : Float64
  pub pago : Bool
  pub pago_em : Option ℕ

pub record RateioFechamento : Type 0 where
  pub id : String
  pub rateio_id : String
  pub evento_id : String
  pub versao : ℕ
  pub valor_total : Float64
  pub participantes : List FechamentoParticipante
  pub criado_em : ℕ

unfoldable pub rateio_is_owner : Rateio → String → Bool
rateio_is_owner r user_id = r.usuario_id == user_id

unfoldable pub is_fechado : Rateio → Bool
is_fechado r = elim r.status [ StatusRateio.fechado ↦ true | StatusRateio.aberto ↦ false ]

unfoldable pub rateio_can_edit : Rateio → Bool
rateio_can_edit r = elim r.status [ StatusRateio.aberto ↦ true | StatusRateio.fechado ↦ false ]
