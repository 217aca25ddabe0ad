-- ===== src/Cofrinho/Repository.antt =====
-- internal/adapter/mongodb/cofrinho.go: the collection cofrinho_contribuicoes. A document has the
-- fields of the entity.
use backend_go_role_organiza.Prelude.{
  ℕ, String, ◌==◌, Bool, not, List, [], ◌∷◌, ◌++◌, find, any, ltb, select, update_first, drop_first,
  sort_by, is_set, if◌then◌else◌,
}
use backend_go_role_organiza.ApiErr.{internal, not_found}
use backend_go_role_organiza.Cofrinho.Domain.{CofrinhoContribuicao}
use backend_go_role_organiza.World.{
  Env, Action, pure, gets, modify, or_raise, ◌>>=◌, ◌>>◌, raise_if, time_now, new_uuid, driver,
}

abbrev pub is_contribuicao : String → CofrinhoContribuicao → Bool
is_contribuicao id c = c.id == id

-- What `$set` writes.
abbrev pub with_status : String → String → ℕ → CofrinhoContribuicao → CofrinhoContribuicao
with_status status payment_id now c = record c {
  status = status;
  webhook_payment_id = payment_id;
  updated_at = now;
}

module _ (env : Env) where
  unfoldable pub fresh_id : String → Action String
  fresh_id id = if is_set id then pure id else new_uuid env

  unfoldable pub save_contribuicao : CofrinhoContribuicao → Action CofrinhoContribuicao
  unfolding fresh_id
  save_contribuicao c = do
    id ← fresh_id c.id
    driver env internal
    modify λ w. record w { contribuicoes = w.contribuicoes ++ record c { id = id } ∷ [] }
    pure (record c { id = id })

  unfoldable pub find_contribuicao : String → Action CofrinhoContribuicao
  find_contribuicao id = do
    driver env internal
    found ← gets (λ w. find (is_contribuicao id) w.contribuicoes)
    or_raise found (not_found "cofrinho_contribuicao" id)

  -- Sorted by creation, the newest first.
  unfoldable pub find_contribuicoes : String → Action (List CofrinhoContribuicao)
  unfolding sort_by
  find_contribuicoes evento_id = do
    driver env internal
    gets λ w.
        sort_by (λ y x. ltb x.criado_em y.criado_em)
          (select (λ c. c.evento_id == evento_id) w.contribuicoes)

  unfoldable pub update_status : String → String → String → Action CofrinhoContribuicao
  update_status id status payment_id = do
    now ← time_now env
    driver env internal
    found ← gets (λ w. find (is_contribuicao id) w.contribuicoes)
    c ← or_raise found (not_found "cofrinho_contribuicao" id)
    modify λ w. record w {
      contribuicoes =
          update_first (is_contribuicao id) (with_status status payment_id now) w.contribuicoes;
    }
    pure (with_status status payment_id now c)

  unfoldable pub erase_contribuicao : String → Action (Unit {0})
  erase_contribuicao id = do
    driver env internal
    found ← gets (λ w. any (is_contribuicao id) w.contribuicoes)
    raise_if (not found) (not_found "cofrinho_contribuicao" id)
    modify λ w. record w { contribuicoes = drop_first (is_contribuicao id) w.contribuicoes }
