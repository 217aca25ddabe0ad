-- ===== src/Social/Claims/Writes.antt =====
-- The writes of the repository and the checks before them leave no unclaimed item under an identifier
-- where there was none.
use backend_go_role_organiza.Prelude.{ℕ, String, ◌==◌, ◌≡◌, Bool, false, Option, arith, keys-differ}
use backend_go_role_organiza.Social.Domain.{Checkin, DressCode, PlaylistLink, AlbumLink}
use backend_go_role_organiza.Social.Auth.{
  find_evento_document, fase_at_least, is_organizador, count_confirmed,
  is_participante_confirmado_ou_organizador,
}
use backend_go_role_organiza.Social.Repository.{
  find_or_create, find_by_evento_id, set_dress_code, push_playlist, push_album_link,
  write_checkin_habilitado, pull_playlist, pull_bring_list_item, pull_album_link,
  write_bring_list_item, clear_claim, write_claim, push_checkin, can_check_in, of_evento,
  with_dress_code, with_playlist, with_album_link, with_checkin_habilitado, with_checkin,
  without_playlist, without_item, without_album_link, holds_item, has_item, map_items, is_claimable,
  can_claim, set_claim, unset_claim,
}
use backend_go_role_organiza.Social.UseCases.{as_organizador, as_participante}
use backend_go_role_organiza.World.{Env}
use backend_go_role_organiza.World.Within.{IsFrame, Within, within_rules, Within-bind, Within-pure}
use backend_go_role_organiza.Social.Claims.Closed.{
  KeepsClosed, KeepsClosed-frame, map_items-IsClosed, without_item-IsClosed,
  change_or_insert-closed, upsert_other-closed, change_first-closed, change_or_conflict-closed,
}

module _ (e id : String) (env : Env) (ev : String) where
  pub find_or_create-closed : Within (KeepsClosed e id) (find_or_create env ev)
  unfolding find_or_create
  find_or_create-closed = change_or_insert-closed e id env ev (λ now d. d) (λ now d h. h)

  pub find_by_evento_id-closed : Within (KeepsClosed e id) (find_by_evento_id env ev)
  unfolding find_by_evento_id
  find_by_evento_id-closed = search (within_rules, KeepsClosed-frame)

  pub as_organizador-closed : (s u : String) → Within (KeepsClosed e id) (as_organizador env s ev u)
  unfolding as_organizador fase_at_least is_organizador find_evento_document
  as_organizador-closed s u = search (within_rules, KeepsClosed-frame) depth 9

  pub as_participante-closed :
      (s u : String) → Within (KeepsClosed e id) (as_participante env s ev u)
  unfolding as_participante fase_at_least is_participante_confirmado_ou_organizador is_organizador
      find_evento_document count_confirmed
  as_participante-closed s u = search (within_rules, KeepsClosed-frame) depth 9

  pub set_dress_code-closed :
      (dc : Option DressCode) → Within (KeepsClosed e id) (set_dress_code env ev dc)
  unfolding set_dress_code
  set_dress_code-closed dc = upsert_other-closed e id env ev (with_dress_code dc) (λ now d h. h)

  pub push_playlist-closed : (p : PlaylistLink) → Within (KeepsClosed e id) (push_playlist env ev p)
  unfolding push_playlist
  push_playlist-closed p = upsert_other-closed e id env ev (with_playlist p) (λ now d h. h)

  pub push_album_link-closed :
      (l : AlbumLink) → Within (KeepsClosed e id) (push_album_link env ev l)
  unfolding push_album_link
  push_album_link-closed l = upsert_other-closed e id env ev (with_album_link l) (λ now d h. h)

  pub write_checkin_habilitado-closed :
      (on : Bool) → Within (KeepsClosed e id) (write_checkin_habilitado env ev on)
  unfolding write_checkin_habilitado
  write_checkin_habilitado-closed on =
      upsert_other-closed e id env ev (with_checkin_habilitado on) (λ now d h. h)

  pub pull_playlist-closed : (x : String) → Within (KeepsClosed e id) (pull_playlist env ev x)
  unfolding pull_playlist
  pull_playlist-closed x =
      change_first-closed e id env ev (of_evento ev) (without_playlist x) (λ now d h. h)

  pub pull_album_link-closed : (x : String) → Within (KeepsClosed e id) (pull_album_link env ev x)
  unfolding pull_album_link
  pull_album_link-closed x =
      change_first-closed e id env ev (of_evento ev) (without_album_link x) (λ now d h. h)

  pub pull_bring_list_item-closed :
      (x : String) → Within (KeepsClosed e id) (pull_bring_list_item env ev x)
  unfolding pull_bring_list_item
  pull_bring_list_item-closed x =
      change_first-closed e id env ev (of_evento ev) (without_item x) (without_item-IsClosed e id x)

  pub write_bring_list_item-closed :
      (x nome n : String) → Within (KeepsClosed e id) (write_bring_list_item env ev x nome n)
  unfolding write_bring_list_item
  write_bring_list_item-closed x nome n =
      change_first-closed e id env ev (holds_item ev x)
        (λ now. map_items now (has_item x) (λ i. record i { nome = nome; quantidade = n }))
        (λ now d. map_items-IsClosed e id (has_item x) _ now d (λ i _ c. c))

  -- The release of another item.
  pub clear_claim-closed :
      (x : String) → (id == x) ≡ false → Within (KeepsClosed e id) (clear_claim env ev x)
  unfolding clear_claim
  clear_claim-closed x other =
      change_first-closed e id env ev (holds_item ev x)
        (λ now. map_items now (has_item x) unset_claim)
        (λ now d.
          map_items-IsClosed e id (has_item x) unset_claim now d
            λ i hit c. ground (arith, keys-differ i.id id x other hit))

  pub write_claim-closed :
      (x u nome : String) (at : ℕ) → Within (KeepsClosed e id) (write_claim env ev x u nome at)
  unfolding write_claim
  write_claim-closed x u nome at =
      change_or_conflict-closed e id env ev "BRING_LIST_ITEM_ALREADY_CLAIMED" (can_claim ev x)
        (λ now. map_items now (is_claimable x) (set_claim u nome at))
        (λ now d.
          map_items-IsClosed e id (is_claimable x) (set_claim u nome at) now d
            λ i hit c. ground (arith, hit, c))

  pub push_checkin-closed : (c : Checkin) → Within (KeepsClosed e id) (push_checkin env ev c)
  unfolding push_checkin
  push_checkin-closed c =
      change_or_conflict-closed e id env ev "CHECKIN_ALREADY_REGISTERED"
        (can_check_in ev c.usuario_id) (with_checkin c) (λ now d h. h)

  pub ruleset closed_rules = (
    within_rules, KeepsClosed-frame, as_organizador-closed, as_participante-closed,
    find_or_create-closed, find_by_evento_id-closed, set_dress_code-closed, push_playlist-closed,
    push_album_link-closed, write_checkin_habilitado-closed, pull_playlist-closed,
    pull_album_link-closed, pull_bring_list_item-closed, write_bring_list_item-closed,
    clear_claim-closed, write_claim-closed, push_checkin-closed,
  )
