-- ===== src/Social/Claims/Kept.antt =====
-- The social requests that neither release an item nor add one leave no unclaimed item under its
-- identifier where there was none.
use backend_go_role_organiza.Prelude.{
  String, ◌==◌, ◌≡◌, Bool, true, false, List, [], ◌∷◌, any, All, arith, eq_false_sym,
}
use backend_go_role_organiza.Social.UseCases.{
  get_social_features, set_evento_dress_code, remove_dress_code, store_playlist, add_playlist,
  remove_playlist, store_album_link, add_album_link, remove_album_link, update_bring_list_item,
  remove_bring_list_item, claim_bring_list_item, unclaim_bring_list_item, set_checkin_habilitado,
  do_checkin,
}
use backend_go_role_organiza.Social.Requests.{
  SocialRequest, SocialOperation, operate, serve, serve_all,
}
use backend_go_role_organiza.World.{World, Env}
use backend_go_role_organiza.World.Within.{Within, Within-bind, Within-context}
use backend_go_role_organiza.Social.Claims.Closed.{IsClosed, KeepsClosed, KeepsClosed-frame}
use backend_go_role_organiza.Social.Claims.Writes.{
  closed_rules, as_participante-closed, clear_claim-closed,
}

-- Whether an operation may leave an unclaimed item under the identifier where there was none.
unfoldable pub may_open : String → SocialOperation → Bool
may_open id (SocialOperation.item nome n) = true
may_open id (SocialOperation.unclaim x) = x == id
may_open id _ = false

module _ (e id : String) (env : Env) where
  module _ (ev u : String) where
    unclaim-closed :
        (x : String)
        → (id == x) ≡ false
        → Within (KeepsClosed e id) (unclaim_bring_list_item env ev u x)
    unfolding unclaim_bring_list_item
    unclaim-closed x other =
        Within-bind (KeepsClosed-frame e id) _ _ (as_participante-closed e id env ev _ u)
          λ _. Within-context (KeepsClosed-frame e id) _ _ (clear_claim-closed e id env ev x other)

    operate-closed :
        (o : SocialOperation) (w : World)
        → may_open id o ≡ false
        → KeepsClosed e id w (operate env ev u o w)
    unfolding operate may_open get_social_features set_evento_dress_code remove_dress_code
        store_playlist add_playlist remove_playlist store_album_link add_album_link
        remove_album_link update_bring_list_item remove_bring_list_item claim_bring_list_item
        set_checkin_habilitado do_checkin
    operate-closed SocialOperation.read w n =
        let h : Within (KeepsClosed e id) (get_social_features env ev u) =
          search closed_rules depth 9 in
        h.at w
    operate-closed SocialOperation.drop_dress_code w n =
        let h : Within (KeepsClosed e id) (remove_dress_code env ev u) =
          search closed_rules depth 9 in
        h.at w
    operate-closed (SocialOperation.dress tipo text) w n =
        let h : Within (KeepsClosed e id) (set_evento_dress_code env ev u tipo text) =
          search closed_rules depth 12 in
        h.at w
    operate-closed (SocialOperation.playlist url nome) w n =
        let h : Within (KeepsClosed e id) (add_playlist env ev u url nome) =
          search closed_rules depth 12 in
        h.at w
    operate-closed (SocialOperation.album url nome) w n =
        let h : Within (KeepsClosed e id) (add_album_link env ev u url nome) =
          search closed_rules depth 12 in
        h.at w
    operate-closed (SocialOperation.drop_playlist x) w n =
        let h : Within (KeepsClosed e id) (remove_playlist env ev u x) =
          search closed_rules depth 9 in
        h.at w
    operate-closed (SocialOperation.drop_album x) w n =
        let h : Within (KeepsClosed e id) (remove_album_link env ev u x) =
          search closed_rules depth 9 in
        h.at w
    operate-closed (SocialOperation.drop_item x) w n =
        let h : Within (KeepsClosed e id) (remove_bring_list_item env ev u x) =
          search closed_rules depth 9 in
        h.at w
    operate-closed (SocialOperation.item nome k) w n = absurd (ground (arith, n))
    operate-closed (SocialOperation.edit_item x nome k) w n =
        let h : Within (KeepsClosed e id) (update_bring_list_item env ev u x nome k) =
          search closed_rules depth 9 in
        h.at w
    operate-closed (SocialOperation.claim nome x) w n =
        let h : Within (KeepsClosed e id) (claim_bring_list_item env ev u nome x) =
          search closed_rules depth 9 in
        h.at w
    operate-closed (SocialOperation.unclaim x) w n = (unclaim-closed x (eq_false_sym x id n)).at w
    operate-closed (SocialOperation.enable_checkin on) w n =
        let h : Within (KeepsClosed e id) (set_checkin_habilitado env ev u on) =
          search closed_rules depth 9 in
        h.at w
    operate-closed (SocialOperation.check_in nome) w n =
        let h : Within (KeepsClosed e id) (do_checkin env ev u nome) =
          search closed_rules depth 12 in
        h.at w

  pub requests-IsClosed :
      (rs : List SocialRequest) (w : World)
      → any (λ r. may_open id r.operation) rs ≡ false
      → All (IsClosed e id) w.social_features
      → All (IsClosed e id) (serve_all env rs w).social_features
  unfolding serve_all serve
  requests-IsClosed [] w n h = h
  requests-IsClosed (r ∷ rs) w n h =
      requests-IsClosed rs (serve env r w) (ground (arith, n))
        ((operate-closed r.evento_id r.usuario_id r.operation w (ground (arith, n))).keeps h)
