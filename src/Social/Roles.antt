-- ===== src/Social/Roles.antt =====
-- Who may change the social features of an event.
pub mod Refused
use backend_go_role_organiza.Prelude.{String, ◌≡◌, false}
use backend_go_role_organiza.World.{World, Env}
use backend_go_role_organiza.Social.Requests.{
  SocialRequest, SocialOperation, is_allowed, needs_organizador, operate, serve, organizes,
  takes_part,
}
use backend_go_role_organiza.Social.UseCases.{
  get_social_features, set_evento_dress_code, remove_dress_code, add_playlist, remove_playlist,
  add_album_link, remove_album_link, add_bring_list_item, update_bring_list_item,
  remove_bring_list_item, claim_bring_list_item, unclaim_bring_list_item, set_checkin_habilitado,
  do_checkin,
}
use backend_go_role_organiza.Social.Roles.Refused.{
  Refuses, Refuses-as_organizador, Refuses-as_participante, Refuses-raise_if,
}

module _ (env : Env) (e u : String) where
  refuse_stranger :
      (o : SocialOperation) (w : World)
      → is_allowed (record { evento_id = e; usuario_id = u; operation = o }) w ≡ false
      → (operate env e u o w).social_features ≡ w.social_features
  unfolding operate is_allowed get_social_features set_evento_dress_code remove_dress_code
      add_playlist remove_playlist add_album_link remove_album_link add_bring_list_item
      update_bring_list_item remove_bring_list_item claim_bring_list_item unclaim_bring_list_item
      set_checkin_habilitado do_checkin
  refuse_stranger SocialOperation.read w h = (Refuses-as_participante env e u _ _).at w h
  refuse_stranger SocialOperation.drop_dress_code w h = (Refuses-as_organizador env e u _ _).at w h
  refuse_stranger (SocialOperation.dress tipo text) w h =
      (Refuses-raise_if _ _ _ _ (Refuses-raise_if _ _ _ _ (Refuses-as_organizador env e u _ _))).at
        w h
  refuse_stranger (SocialOperation.playlist url nome) w h =
      (Refuses-as_organizador env e u _ _).at w h
  refuse_stranger (SocialOperation.album url nome) w h =
      (Refuses-as_participante env e u _ _).at w h
  refuse_stranger (SocialOperation.drop_playlist id) w h =
      (Refuses-as_organizador env e u _ _).at w h
  refuse_stranger (SocialOperation.drop_album id) w h = (Refuses-as_organizador env e u _ _).at w h
  refuse_stranger (SocialOperation.drop_item id) w h = (Refuses-as_organizador env e u _ _).at w h
  refuse_stranger (SocialOperation.item nome n) w h =
      (Refuses-raise_if _ _ _ _ (Refuses-as_organizador env e u _ _)).at w h
  refuse_stranger (SocialOperation.edit_item id nome n) w h =
      (Refuses-as_organizador env e u _ _).at w h
  refuse_stranger (SocialOperation.claim nome id) w h = (Refuses-as_participante env e u _ _).at w h
  refuse_stranger (SocialOperation.unclaim id) w h = (Refuses-as_participante env e u _ _).at w h
  refuse_stranger (SocialOperation.enable_checkin on) w h =
      (Refuses-as_organizador env e u _ _).at w h
  refuse_stranger (SocialOperation.check_in nome) w h = (Refuses-as_participante env e u _ _).at w h

-- A request of a user without the role that its operation asks for changes no social features,
-- whatever it holds and whatever database calls fail: the organiser of the event for the dress code,
-- the playlists, the items, the removals and the check-in switch; the organiser or a confirmed
-- participant for the claims, the album links and the check-in.
pub strangers_change_nothing :
    (env : Env) (r : SocialRequest) (w : World)
    → is_allowed r w ≡ false
    → (serve env r w).social_features ≡ w.social_features
unfolding serve
strangers_change_nothing env r w h = refuse_stranger env r.evento_id r.usuario_id r.operation w h
