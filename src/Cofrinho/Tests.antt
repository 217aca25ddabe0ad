-- ===== src/Cofrinho/Tests.antt =====
-- The theorem on contributions at a concrete input.
use backend_go_role_organiza.Prelude.{◌≡◌, refl, some, [], ◌∷◌, find, pos}
use backend_go_role_organiza.Payment.Tests.Data.{env, world}
use backend_go_role_organiza.Cofrinho.Domain.{CofrinhoContribuicao}
use backend_go_role_organiza.Cofrinho.Repository.{is_contribuicao}
use backend_go_role_organiza.Cofrinho.UseCases.{CofrinhoRequest, serve_contribuicoes}
use backend_go_role_organiza.Cofrinho.Confirmed.{confirmed_kept}
use backend_go_role_organiza.World.{World}

abbrev gift : CofrinhoContribuicao
gift = record {
  id = "c1";
  evento_id = "e1";
  guest_id = "g1";
  nome = "Ana";
  mensagem = "Parabéns";
  valor = pos 100;
  status = "CONFIRMADO";
  pix_qr_code = "";
  webhook_payment_id = "pay_1";
  criado_em = 1;
  updated_at = 1;
}

abbrev jar : World
jar = record world { contribuicoes = gift ∷ [] }

confirmed_kept_example :
    let rs = CofrinhoRequest.confirm "c1" "pay_2" ∷ CofrinhoRequest.remove "c1" ∷ [] in
    find (is_contribuicao "c1") (serve_contribuicoes env rs jar).contribuicoes ≡ some gift
confirmed_kept_example =
    confirmed_kept env (CofrinhoRequest.confirm "c1" "pay_2" ∷ CofrinhoRequest.remove "c1" ∷ [])
      "c1" jar gift refl refl
