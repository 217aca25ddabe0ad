-- ===== src/Rateio/Requests.antt =====
-- The requests that internal/adapter/http/handler passes to the use cases of
-- internal/usecase/rateio/rateio.go, and sequences of them.
use backend_go_role_organiza.Prelude.{String, ◌==◌, Bool, false, List, [], ◌∷◌}
use backend_go_role_organiza.Rateio.UseCases.{
  CreateRateioInput, UpdateRateioInput, FecharParticipanteInput, create_rateio, get_rateio,
  list_rateios, update_rateio, delete_rateio, preview_rateio, fechar_rateio, get_fechamentos,
}
use backend_go_role_organiza.World.{World, Env}

-- With the rateio and the requester where the operation takes them.
pub data RateioRequest : Type 0 where
  create : CreateRateioInput → RateioRequest
  get list delete closings : String → String → RateioRequest
  update : String → String → UpdateRateioInput → RateioRequest
  preview : String → String → List String → RateioRequest
  close : String → String → List FecharParticipanteInput → RateioRequest

-- What a request leaves.
unfoldable pub serve_rateio : Env → RateioRequest → World → World
serve_rateio env (RateioRequest.create input) w = (create_rateio env input w).1
serve_rateio env (RateioRequest.get id user) w = (get_rateio env id user w).1
serve_rateio env (RateioRequest.list id user) w = (list_rateios env id user w).1
serve_rateio env (RateioRequest.delete id user) w = (delete_rateio env id user w).1
serve_rateio env (RateioRequest.closings id user) w = (get_fechamentos env id user w).1
serve_rateio env (RateioRequest.update id user input) w = (update_rateio env id user input w).1
serve_rateio env (RateioRequest.preview id user users) w = (preview_rateio env id user users w).1
serve_rateio env (RateioRequest.close id user shares) w = (fechar_rateio env id user shares w).1

unfoldable pub deletes_rateio : String → RateioRequest → Bool
deletes_rateio id (RateioRequest.delete id' user) = id' == id
deletes_rateio id _ = false

-- One request after the other.
unfoldable pub serve_rateios : Env → List RateioRequest → World → World
unfolding serve_rateio
serve_rateios env [] w = w
serve_rateios env (r ∷ rs) w = serve_rateios env rs (serve_rateio env r w)
