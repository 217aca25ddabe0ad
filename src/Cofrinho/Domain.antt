-- ===== src/Cofrinho/Domain.antt =====
-- internal/domain/cofrinho/cofrinho.go.
use backend_go_role_organiza.Prelude.{ℕ, String, ◌==◌, Bool, ℤ}

-- The status is a text, as it is stored.
abbrev pub status_pendente : String
status_pendente = "PENDENTE"

abbrev pub status_confirmado : String
status_confirmado = "CONFIRMADO"

pub record CofrinhoContribuicao : Type 0 where
  pub id : String
  pub evento_id : String
  pub guest_id : String
  pub nome : String
  pub mensagem : String
  pub valor : ℤ
  pub status : String
  pub pix_qr_code : String
  pub webhook_payment_id : String
  pub criado_em : ℕ
  pub updated_at : ℕ

unfoldable pub contribuicao_is_owner : CofrinhoContribuicao → String → Bool
contribuicao_is_owner c guest_id = c.guest_id == guest_id
