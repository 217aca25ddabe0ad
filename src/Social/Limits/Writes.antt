-- ===== src/Social/Limits/Writes.antt =====
-- The writes of the repository keep the limits, and so do the checks that come before them.
use backend_go_role_organiza.Prelude.{ℕ, String, ◌==◌, Bool, not, Option, arith}
use backend_go_role_organiza.Social.Domain.{EventoSocialFeatures, Checkin, DressCode, BringListItem}
use backend_go_role_organiza.Social.Auth.{
  find_evento_document, fase_at_least, is_organizador, count_confirmed,
  is_participante_confirmado_ou_organizador,
}
use backend_go_role_organiza.Social.Repository.{
  change_or_insert, find_or_create, find_by_evento_id, set_dress_code, push_bring_list_item,
  write_checkin_habilitado, pull_playlist, pull_bring_list_item, pull_album_link,
  write_bring_list_item, clear_claim, write_claim, push_checkin, can_check_in, of_evento,
  with_dress_code, with_item, with_checkin_habilitado, with_checkin, without_playlist, without_item,
  without_album_link, holds_item, has_item, map_items, is_claimable, can_claim, set_claim,
  unset_claim,
}
use backend_go_role_organiza.Social.UseCases.{as_organizador, as_participante, get_social_features}
use backend_go_role_organiza.World.{Env, ◌>>=◌, pure}
use backend_go_role_organiza.World.Within.{
  IsFrame, Within, within_rules, Within-bind, Within-bind_from, Within-context, Within-pure,
  related-bind,
}
use backend_go_role_organiza.Social.Limits.Relation.{
  IsDistinct, IsWithinLimits, KeepsLimits, KeepsLimits-frame, select-length, IsDistinct-push, met,
  change_or_insert-keeps_at, change_or_insert-keeps, change_first-keeps, change_or_conflict-keeps,
}

module _ (env : Env) (e u : String) where
  pub as_organizador-keeps : (s : String) → Within KeepsLimits (as_organizador env s e u)
  unfolding as_organizador fase_at_least is_organizador find_evento_document
  as_organizador-keeps s = search (within_rules, KeepsLimits-frame) depth 9

  pub as_participante-keeps : (s : String) → Within KeepsLimits (as_participante env s e u)
  unfolding as_participante fase_at_least is_participante_confirmado_ou_organizador is_organizador
      find_evento_document count_confirmed
  as_participante-keeps s = search (within_rules, KeepsLimits-frame) depth 9

  pub find_by_evento_id-keeps : Within KeepsLimits (find_by_evento_id env e)
  unfolding find_by_evento_id
  find_by_evento_id-keeps = search (within_rules, KeepsLimits-frame)

  pub find_or_create-keeps : Within KeepsLimits (find_or_create env e)
  unfolding find_or_create
  find_or_create-keeps = change_or_insert-keeps env e (λ now d. d) (λ now d h. h)

  pub ruleset social_rules = (
    within_rules, KeepsLimits-frame, as_organizador-keeps, as_participante-keeps,
    find_by_evento_id-keeps, find_or_create-keeps,
  )

  -- A write that leaves the counted lists alone.
  pub upsert_other-keeps :
      (f : ℕ → EventoSocialFeatures → EventoSocialFeatures)
      → ((now : ℕ) (d : EventoSocialFeatures) → IsWithinLimits d → IsWithinLimits (f now d))
      → Within KeepsLimits (change_or_insert env e f >>= λ _. pure tt)
  upsert_other-keeps f k =
      Within-bind KeepsLimits-frame _ _ (change_or_insert-keeps env e f k)
        λ _. Within-pure KeepsLimits-frame tt

  pub get_social_features-keeps : Within KeepsLimits (get_social_features env e u)
  unfolding get_social_features
  get_social_features-keeps = search social_rules depth 9

  pub set_dress_code-keeps : (dc : Option DressCode) → Within KeepsLimits (set_dress_code env e dc)
  unfolding set_dress_code
  set_dress_code-keeps dc = upsert_other-keeps (with_dress_code dc) (λ now d h. h)

  pub push_bring_list_item-keeps :
      (i : BringListItem) → Within KeepsLimits (push_bring_list_item env e i)
  unfolding push_bring_list_item
  push_bring_list_item-keeps i = upsert_other-keeps (with_item i) (λ now d h. h)

  pub write_checkin_habilitado-keeps :
      (on : Bool) → Within KeepsLimits (write_checkin_habilitado env e on)
  unfolding write_checkin_habilitado
  write_checkin_habilitado-keeps on = upsert_other-keeps (with_checkin_habilitado on) (λ now d h. h)

  pub pull_playlist-keeps : (id : String) → Within KeepsLimits (pull_playlist env e id)
  unfolding pull_playlist
  pull_playlist-keeps id =
      change_first-keeps env (of_evento e) (without_playlist id) λ now d p h.
        (omega (arith, h.0, select-length (λ x. not (x.id == id)) d.playlists), h.1, h.2)

  pub pull_album_link-keeps : (id : String) → Within KeepsLimits (pull_album_link env e id)
  unfolding pull_album_link
  pull_album_link-keeps id =
      change_first-keeps env (of_evento e) (without_album_link id) λ now d p h.
        (h.0, omega (arith, h.1, select-length (λ x. not (x.id == id)) d.album_links), h.2)

  pub pull_bring_list_item-keeps :
      (id : String) → Within KeepsLimits (pull_bring_list_item env e id)
  unfolding pull_bring_list_item
  pull_bring_list_item-keeps id =
      change_first-keeps env (of_evento e) (without_item id) (λ now d p h. h)

  pub write_bring_list_item-keeps :
      (id nome n : String) → Within KeepsLimits (write_bring_list_item env e id nome n)
  unfolding write_bring_list_item
  write_bring_list_item-keeps id nome n =
      change_first-keeps env (holds_item e id)
        (λ now. map_items now (has_item id) (λ i. record i { nome = nome; quantidade = n }))
        (λ now d p h. h)

  pub clear_claim-keeps : (id : String) → Within KeepsLimits (clear_claim env e id)
  unfolding clear_claim
  clear_claim-keeps id =
      change_first-keeps env (holds_item e id) (λ now. map_items now (has_item id) unset_claim)
        (λ now d p h. h)

  pub write_claim-keeps :
      (id user nome : String) (at : ℕ) → Within KeepsLimits (write_claim env e id user nome at)
  unfolding write_claim
  write_claim-keeps id user nome at =
      change_or_conflict-keeps env "BRING_LIST_ITEM_ALREADY_CLAIMED" (can_claim e id)
        (λ now. map_items now (is_claimable id) (set_claim user nome at)) (λ now d p h. h)

  pub push_checkin-keeps : (c : Checkin) → Within KeepsLimits (push_checkin env e c)
  unfolding push_checkin
  push_checkin-keeps c =
      change_or_conflict-keeps env "CHECKIN_ALREADY_REGISTERED" (can_check_in e c.usuario_id)
        (with_checkin c)
        (λ now d p h. (h.0, h.1, IsDistinct-push c d.checkins (ground (arith, p)) h.2))
