-- ===== src/Social/Limits.antt =====
-- The limits of the social features: three playlists, five album links, one check-in per user.
pub mod Relation
pub mod Writes
pub mod Kept
use backend_go_role_organiza.Prelude.{ℕ, String, ◌≡◌, List, [], ◌∷◌, All}
use backend_go_role_organiza.World.{World, Env}
use backend_go_role_organiza.Social.Limits.Relation.{IsWithinLimits, KeepsLimits}
use backend_go_role_organiza.Social.Limits.Writes.{get_social_features-keeps}
use backend_go_role_organiza.Social.Limits.Kept.{
  set_evento_dress_code-keeps, remove_dress_code-keeps, remove_playlist-keeps,
  remove_album_link-keeps, add_bring_list_item-keeps, update_bring_list_item-keeps,
  remove_bring_list_item-keeps, claim_bring_list_item-keeps, unclaim_bring_list_item-keeps,
  set_checkin_habilitado-keeps, do_checkin-keeps, add_playlist-keeps, add_album_link-keeps,
}
use backend_go_role_organiza.Social.Requests.{
  SocialRequest, SocialOperation, operate, serve, serve_all,
}

operate_keeps :
    (env : Env) (e u : String) (o : SocialOperation) (w : World)
    → KeepsLimits w (operate env e u o w)
unfolding operate
operate_keeps env e u SocialOperation.read w = (get_social_features-keeps env e u).at w
operate_keeps env e u SocialOperation.drop_dress_code w = (remove_dress_code-keeps env e u).at w
operate_keeps env e u (SocialOperation.dress tipo text) w =
    (set_evento_dress_code-keeps env e u tipo text).at w
operate_keeps env e u (SocialOperation.playlist url nome) w =
    (add_playlist-keeps env e u url nome).at w
operate_keeps env e u (SocialOperation.album url nome) w =
    (add_album_link-keeps env e u url nome).at w
operate_keeps env e u (SocialOperation.drop_playlist id) w = (remove_playlist-keeps env e u id).at w
operate_keeps env e u (SocialOperation.drop_album id) w = (remove_album_link-keeps env e u id).at w
operate_keeps env e u (SocialOperation.drop_item id) w =
    (remove_bring_list_item-keeps env e u id).at w
operate_keeps env e u (SocialOperation.item nome n) w =
    (add_bring_list_item-keeps env e u nome n).at w
operate_keeps env e u (SocialOperation.edit_item id nome n) w =
    (update_bring_list_item-keeps env e u id nome n).at w
operate_keeps env e u (SocialOperation.claim nome id) w =
    (claim_bring_list_item-keeps env e u nome id).at w
operate_keeps env e u (SocialOperation.unclaim id) w =
    (unclaim_bring_list_item-keeps env e u id).at w
operate_keeps env e u (SocialOperation.enable_checkin on) w =
    (set_checkin_habilitado-keeps env e u on).at w
operate_keeps env e u (SocialOperation.check_in nome) w = (do_checkin-keeps env e u nome).at w

-- Every document of the social features that holds at most three playlists, at most five album links
-- and no two check-ins of one user still does after any sequence of requests to the social use
-- cases, one after the other, whatever database calls fail; and so do the documents they create.
pub requests_keep_limits :
    (env : Env) (rs : List SocialRequest) (w : World)
    → All IsWithinLimits w.social_features
    → All IsWithinLimits (serve_all env rs w).social_features
unfolding serve_all serve
requests_keep_limits env [] w h = h
requests_keep_limits env (r ∷ rs) w h =
    requests_keep_limits env rs (serve env r w)
      ((operate_keeps env r.evento_id r.usuario_id r.operation w).keeps h)
