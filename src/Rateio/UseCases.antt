-- ===== src/Rateio/UseCases.antt =====
-- internal/usecase/rateio/rateio.go.
mod Parts
unfoldable pub use Parts.*
use backend_go_role_organiza.Prelude.{
  ℕ, suc, String, ◌==◌, false, not, ◌||◌, Option, none, some, List, [], ◌∷◌, map, ℤ, pos, eqb_ℤ,
  length, if◌then◌else◌,
}
use backend_go_role_organiza.ApiErr.{forbidden, bad_request, unprocessable, conflict}
use backend_go_role_organiza.Payment.Domain.{Float64}
use backend_go_role_organiza.Rateio.Domain.{
  Rateio, RateioItem, RateioFechamento, FechamentoParticipante, PreviewResult, PreviewParticipante,
  StatusRateio, rateio_is_owner, rateio_can_edit,
}
use backend_go_role_organiza.Rateio.Repository.{
  find_rateio, find_rateios_of_evento, save_rateio, write_rateio, erase_rateio, find_fechamentos,
  save_fechamento,
}
use backend_go_role_organiza.World.{
  Env, FloatOps, Action, Result, ok, err, pure, attempt, ◌>>=◌, ◌>>◌, raise_if, time_now,
}

module _ (env : Env) where
  unfoldable pub create_rateio : CreateRateioInput → Action Rateio
  unfolding save_rateio
  create_rateio input = do now ← time_now env; save_rateio env (new_rateio env.floats input now)

  -- `FindByID` and the check of the owner, with which the other use cases begin.
  unfoldable pub get_rateio : String → String → Action Rateio
  unfolding find_rateio rateio_is_owner
  get_rateio id requester_id = do
    r ← find_rateio env id
    raise_if (not (rateio_is_owner r requester_id)) (forbidden "acesso negado")
    pure r

  unfoldable pub list_rateios : String → String → Action (List Rateio)
  unfolding find_rateios_of_evento
  list_rateios evento_id _ = find_rateios_of_evento env evento_id

  unfoldable pub new_itens :
      Option (List RateioItemInput) → List RateioItem → Action (List RateioItem)
  unfolding updated_item
  new_itens none old = pure old
  new_itens (some itens) old = do now ← time_now env; pure (map (updated_item env.floats now) itens)

  unfoldable pub update_rateio : String → String → UpdateRateioInput → Action Rateio
  unfolding get_rateio rateio_can_edit new_itens write_rateio
  update_rateio id requester_id input = do
    r ← get_rateio id requester_id
    raise_if (not (rateio_can_edit r)) (bad_request "rateio não pode ser editado — já foi fechado")
    itens ← new_itens input.itens r.itens
    now ← time_now env
    write_rateio env (edited input itens now r)

  unfoldable pub delete_rateio : String → String → Action (Unit {0})
  unfolding get_rateio erase_rateio
  delete_rateio id requester_id = do get_rateio id requester_id; erase_rateio env id

  unfoldable pub preview_rateio : String → String → List String → Action PreviewResult
  unfolding get_rateio preview_total preview_shares
  preview_rateio id requester_id users = do
    r ← get_rateio id requester_id
    raise_if (eqb_ℤ (participant_count r users) (pos 0))
        (unprocessable "número de participantes não definido")
    let total : Float64 = preview_total env.floats r
    pure (record {
      rateio_id = r.id;
      total_geral = total;
      participantes = preview_shares env.floats r.tipo total (participant_count r users) users;
    })

  -- The snapshot is saved first, and the split is marked as closed after it.
  unfoldable pub close_with :
      String → List FecharParticipanteInput → Rateio → Action RateioFechamento
  unfolding find_fechamentos save_fechamento write_rateio
  close_with id participantes r = do
    existing ← attempt (find_fechamentos env id)
    now ← time_now env
    saved ← save_fechamento env (snapshot env.floats r (known existing) participantes now)
    closed_at ← time_now env
    write_rateio env (closed_rateio closed_at r)
    pure saved

  unfoldable pub fechar_rateio :
      String → String → List FecharParticipanteInput → Action RateioFechamento
  unfolding get_rateio rateio_can_edit close_with
  fechar_rateio id requester_id participantes = do
    r ← get_rateio id requester_id
    raise_if (not (rateio_can_edit r)) (conflict "rateio já foi fechado")
    close_with id participantes r

  unfoldable pub get_fechamentos : String → String → Action (List RateioFechamento)
  unfolding get_rateio find_fechamentos
  get_fechamentos rateio_id requester_id = do
    get_rateio rateio_id requester_id
    find_fechamentos env rateio_id
