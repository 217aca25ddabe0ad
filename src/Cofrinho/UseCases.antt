-- ===== src/Cofrinho/UseCases.antt =====
-- internal/usecase/cofrinho/cofrinho.go.
use backend_go_role_organiza.Prelude.{
  String, ◌==◌, Bool, not, List, [], ◌∷◌, ℤ, join, pos_part, leb,
}
use backend_go_role_organiza.ApiErr.{bad_request, unprocessable}
use backend_go_role_organiza.Cofrinho.Domain.{
  CofrinhoContribuicao, status_pendente, status_confirmado,
}
use backend_go_role_organiza.Cofrinho.Repository.{
  save_contribuicao, find_contribuicao, find_contribuicoes, update_status, erase_contribuicao,
}
use backend_go_role_organiza.World.{World, Env, Action, ◌>>=◌, ◌>>◌, raise_if, time_now, new_uuid}

pub record CreateContribuicaoInput : Type 0 where
  pub evento_id : String
  pub guest_id : String
  pub nome : String
  pub mensagem : String
  pub valor : ℤ

pub data CofrinhoRequest : Type 0 where
  create : CreateContribuicaoInput → CofrinhoRequest
  get list remove : String → CofrinhoRequest
  confirm : String → String → CofrinhoRequest

-- `in.Valor <= 0`
abbrev pub is_not_positive : ℤ → Bool
is_not_positive v = leb (pos_part v) 0

abbrev pub is_pendente : CofrinhoContribuicao → Bool
is_pendente c = c.status == status_pendente

module _ (env : Env) where
  unfoldable pub create_contribuicao : CreateContribuicaoInput → Action CofrinhoContribuicao
  unfolding save_contribuicao
  create_contribuicao input = do
    raise_if (input.evento_id == "") (bad_request "eventoId é obrigatório")
    raise_if (input.nome == "") (bad_request "nome é obrigatório")
    raise_if (is_not_positive input.valor) (bad_request "valor deve ser maior que zero")
    now ← time_now env
    code ← new_uuid env
    save_contribuicao env (record {
      id = "";
      evento_id = input.evento_id;
      guest_id = input.guest_id;
      nome = input.nome;
      mensagem = input.mensagem;
      valor = input.valor;
      status = status_pendente;
      pix_qr_code = join ("PIX-PLACEHOLDER-" ∷ code ∷ "-" ∷ env.decimal input.valor ∷ []);
      webhook_payment_id = "";
      criado_em = now;
      updated_at = now;
    })

  unfoldable pub get_contribuicao : String → Action CofrinhoContribuicao
  unfolding find_contribuicao
  get_contribuicao id = find_contribuicao env id

  unfoldable pub list_contribuicoes : String → Action (List CofrinhoContribuicao)
  unfolding find_contribuicoes
  list_contribuicoes evento_id = do
    raise_if (evento_id == "") (bad_request "eventoId é obrigatório")
    find_contribuicoes env evento_id

  unfoldable pub confirmar_contribuicao : String → String → Action CofrinhoContribuicao
  unfolding find_contribuicao update_status
  confirmar_contribuicao id payment_id = do
    c ← find_contribuicao env id
    raise_if (not (is_pendente c))
        (unprocessable (join ("contribuição não está pendente (status: " ∷ c.status ∷ ")" ∷ [])))
    update_status env id status_confirmado payment_id

  unfoldable pub remover_contribuicao : String → Action (Unit {0})
  unfolding find_contribuicao erase_contribuicao
  remover_contribuicao id = do
    raise_if (id == "") (bad_request "id da contribuição é obrigatório")
    c ← find_contribuicao env id
    raise_if (not (is_pendente c)) (
        unprocessable (
          join (
            "apenas contribuições com status PENDENTE podem ser removidas. Status atual: "
            ∷ c.status ∷ [])))
    erase_contribuicao env id

  -- What a request leaves.
  unfoldable pub serve_contribuicao : CofrinhoRequest → World → World
  unfolding create_contribuicao get_contribuicao list_contribuicoes remover_contribuicao
      confirmar_contribuicao
  serve_contribuicao (CofrinhoRequest.create input) w = (create_contribuicao input w).1
  serve_contribuicao (CofrinhoRequest.get id) w = (get_contribuicao id w).1
  serve_contribuicao (CofrinhoRequest.list evento_id) w = (list_contribuicoes evento_id w).1
  serve_contribuicao (CofrinhoRequest.remove id) w = (remover_contribuicao id w).1
  serve_contribuicao (CofrinhoRequest.confirm id payment_id) w =
      (confirmar_contribuicao id payment_id w).1

  -- One request after the other.
  unfoldable pub serve_contribuicoes : List CofrinhoRequest → World → World
  unfolding serve_contribuicao
  serve_contribuicoes [] w = w
  serve_contribuicoes (r ∷ rs) w = serve_contribuicoes rs (serve_contribuicao r w)
