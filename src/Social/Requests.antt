-- ===== src/Social/Requests.antt =====
-- The requests that internal/adapter/http/handler/social.go passes to the use cases of
-- internal/usecase/social, and sequences of them.
use backend_go_role_organiza.Prelude.{
  String, ◌==◌, Bool, true, false, ◌||◌, Option, none, some, List, [], ◌∷◌, find, any,
  if◌then◌else◌,
}
use backend_go_role_organiza.Event.Domain.{EventoDocument}
use backend_go_role_organiza.Social.Auth.{has_id, is_confirmed}
use backend_go_role_organiza.Social.UseCases.{
  get_social_features, set_evento_dress_code, remove_dress_code, add_playlist, remove_playlist,
  add_album_link, remove_album_link, add_bring_list_item, update_bring_list_item,
  remove_bring_list_item, claim_bring_list_item, unclaim_bring_list_item, set_checkin_habilitado,
  do_checkin,
}
use backend_go_role_organiza.World.{World, Env}

pub data SocialOperation : Type 0 where
  read drop_dress_code : SocialOperation
  dress : String → String → SocialOperation
  playlist album : String → String → SocialOperation
  drop_playlist drop_album drop_item : String → SocialOperation
  item : String → String → SocialOperation
  edit_item : String → String → String → SocialOperation
  claim : String → String → SocialOperation
  unclaim : String → SocialOperation
  enable_checkin : Bool → SocialOperation
  check_in : String → SocialOperation

pub record SocialRequest : Type 0 where
  pub evento_id : String
  pub usuario_id : String
  pub operation : SocialOperation

-- The operations whose use case asks for the organiser.
unfoldable pub needs_organizador : SocialOperation → Bool
needs_organizador SocialOperation.read = false
needs_organizador (SocialOperation.album url nome) = false
needs_organizador (SocialOperation.claim nome item_id) = false
needs_organizador (SocialOperation.unclaim item_id) = false
needs_organizador (SocialOperation.check_in nome) = false
needs_organizador _ = true

unfoldable pub is_responsavel : String → Option EventoDocument → Bool
is_responsavel usuario_id none = false
is_responsavel usuario_id (some e) = e.usuario_id_responsavel == usuario_id

unfoldable pub organizes : String → String → World → Bool
unfolding is_responsavel
organizes evento_id usuario_id w = is_responsavel usuario_id (find (has_id evento_id) w.eventos)

unfoldable pub takes_part : String → String → World → Bool
unfolding organizes
takes_part evento_id usuario_id w =
    organizes evento_id usuario_id w || any (is_confirmed evento_id usuario_id) w.participants

unfoldable pub is_allowed : SocialRequest → World → Bool
unfolding organizes takes_part needs_organizador
is_allowed r w =
    if needs_organizador r.operation
    then organizes r.evento_id r.usuario_id w
    else takes_part r.evento_id r.usuario_id w

-- What a request leaves.
unfoldable pub operate : Env → String → String → SocialOperation → World → World
operate env e u SocialOperation.read w = (get_social_features env e u w).1
operate env e u SocialOperation.drop_dress_code w = (remove_dress_code env e u w).1
operate env e u (SocialOperation.dress tipo text) w = (set_evento_dress_code env e u tipo text w).1
operate env e u (SocialOperation.playlist url nome) w = (add_playlist env e u url nome w).1
operate env e u (SocialOperation.album url nome) w = (add_album_link env e u url nome w).1
operate env e u (SocialOperation.drop_playlist id) w = (remove_playlist env e u id w).1
operate env e u (SocialOperation.drop_album id) w = (remove_album_link env e u id w).1
operate env e u (SocialOperation.drop_item id) w = (remove_bring_list_item env e u id w).1
operate env e u (SocialOperation.item nome n) w = (add_bring_list_item env e u nome n w).1
operate env e u (SocialOperation.edit_item id nome n) w =
    (update_bring_list_item env e u id nome n w).1
operate env e u (SocialOperation.claim nome id) w = (claim_bring_list_item env e u nome id w).1
operate env e u (SocialOperation.unclaim id) w = (unclaim_bring_list_item env e u id w).1
operate env e u (SocialOperation.enable_checkin on) w = (set_checkin_habilitado env e u on w).1
operate env e u (SocialOperation.check_in nome) w = (do_checkin env e u nome w).1

unfoldable pub serve : Env → SocialRequest → World → World
unfolding operate
serve env r w = operate env r.evento_id r.usuario_id r.operation w

-- One request after the other.
unfoldable pub serve_all : Env → List SocialRequest → World → World
unfolding serve
serve_all env [] w = w
serve_all env (r ∷ rs) w = serve_all env rs (serve env r w)
