-- ===== src/Social/Limits/Kept.antt =====
-- Each use case of internal/usecase/social keeps the limits of every document.
use backend_go_role_organiza.Prelude.{
  String, ◌≡◌, Bool, false, [], ◌∷◌, length, length-append, leb, ap, arith, Bool-cases, inl, inr,
}
use backend_go_role_organiza.Social.Domain.{EventoSocialFeatures, PlaylistLink, AlbumLink}
use backend_go_role_organiza.Social.Repository.{
  new_social_defaults, existing_or, find_or_create, push_playlist, push_album_link, with_playlist,
  with_album_link,
}
use backend_go_role_organiza.Social.Documents.{find_or_create-existing}
use backend_go_role_organiza.Social.UseCases.{
  set_evento_dress_code, remove_dress_code, store_playlist, add_playlist, remove_playlist,
  store_album_link, add_album_link, remove_album_link, add_bring_list_item, update_bring_list_item,
  remove_bring_list_item, claim_bring_list_item, unclaim_bring_list_item, set_checkin_habilitado,
  do_checkin,
}
use backend_go_role_organiza.World.{
  World, Env, context, ◌>>=◌, tick, raise_if, new_uuid, either, raise,
}
use backend_go_role_organiza.World.Inversion.{context-eq-ok}
use backend_go_role_organiza.World.Within.{
  Within, Within-bind, Within-bind_from, Within-context, Within-pure, related-bind,
}
use backend_go_role_organiza.Social.Limits.Relation.{
  KeepsLimits, KeepsLimits-frame, met, change_or_insert-keeps_at,
}
use backend_go_role_organiza.Social.Limits.Writes.{
  as_organizador-keeps, as_participante-keeps, find_or_create-keeps, social_rules,
  set_dress_code-keeps, push_bring_list_item-keeps, write_checkin_habilitado-keeps,
  pull_playlist-keeps, pull_album_link-keeps, pull_bring_list_item-keeps,
  write_bring_list_item-keeps, clear_claim-keeps, write_claim-keeps, push_checkin-keeps,
}

module _ (env : Env) (e u : String) where
  ruleset write_rules = (
    social_rules, set_dress_code-keeps, push_bring_list_item-keeps, write_checkin_habilitado-keeps,
    pull_playlist-keeps, pull_album_link-keeps, pull_bring_list_item-keeps,
    write_bring_list_item-keeps, clear_claim-keeps, write_claim-keeps, push_checkin-keeps,
  )

  pub set_evento_dress_code-keeps :
      (tipo text : String) → Within KeepsLimits (set_evento_dress_code env e u tipo text)
  unfolding set_evento_dress_code
  set_evento_dress_code-keeps tipo text = search write_rules depth 12

  pub remove_dress_code-keeps : Within KeepsLimits (remove_dress_code env e u)
  unfolding remove_dress_code
  remove_dress_code-keeps = search write_rules depth 9

  pub remove_playlist-keeps : (id : String) → Within KeepsLimits (remove_playlist env e u id)
  unfolding remove_playlist
  remove_playlist-keeps id = search write_rules depth 9

  pub remove_album_link-keeps : (id : String) → Within KeepsLimits (remove_album_link env e u id)
  unfolding remove_album_link
  remove_album_link-keeps id = search write_rules depth 9

  pub add_bring_list_item-keeps :
      (nome n : String) → Within KeepsLimits (add_bring_list_item env e u nome n)
  unfolding add_bring_list_item
  add_bring_list_item-keeps nome n = search write_rules depth 12

  pub update_bring_list_item-keeps :
      (id nome n : String) → Within KeepsLimits (update_bring_list_item env e u id nome n)
  unfolding update_bring_list_item
  update_bring_list_item-keeps id nome n = search write_rules depth 9

  pub remove_bring_list_item-keeps :
      (id : String) → Within KeepsLimits (remove_bring_list_item env e u id)
  unfolding remove_bring_list_item
  remove_bring_list_item-keeps id = search write_rules depth 9

  pub claim_bring_list_item-keeps :
      (nome id : String) → Within KeepsLimits (claim_bring_list_item env e u nome id)
  unfolding claim_bring_list_item
  claim_bring_list_item-keeps nome id = search write_rules depth 9

  pub unclaim_bring_list_item-keeps :
      (id : String) → Within KeepsLimits (unclaim_bring_list_item env e u id)
  unfolding unclaim_bring_list_item
  unclaim_bring_list_item-keeps id = search write_rules depth 9

  pub set_checkin_habilitado-keeps :
      (on : Bool) → Within KeepsLimits (set_checkin_habilitado env e u on)
  unfolding set_checkin_habilitado
  set_checkin_habilitado-keeps on = search write_rules depth 9

  pub do_checkin-keeps : (nome : String) → Within KeepsLimits (do_checkin env e u nome)
  unfolding do_checkin
  do_checkin-keeps nome = search write_rules depth 12

  -- The list is counted on the document that the write then meets.
  push_playlist-keeps :
      (p : PlaylistLink) (doc : EventoSocialFeatures) (w : World)
      → ((d : EventoSocialFeatures) → existing_or d e w.social_features ≡ doc)
      → leb 3 (length doc.playlists) ≡ false
      → KeepsLimits w (push_playlist env e p w).1
  unfolding push_playlist
  push_playlist-keeps p doc w meets short =
      related-bind KeepsLimits-frame _ _ w
        (change_or_insert-keeps_at env e (with_playlist p) w λ id now h. (
          ground (
            arith,
            length-append (met env e id now w).playlists (p ∷ []),
            short,
            ap (λ x. length x.playlists) (meets (new_social_defaults id e now)),
          ),
          h.1,
          h.2,
        ))
        (λ _. Within-pure KeepsLimits-frame tt)

  store_playlist-keeps :
      (url nome : String) (doc : EventoSocialFeatures) (w : World)
      → ((d : EventoSocialFeatures) → existing_or d e w.social_features ≡ doc)
      → KeepsLimits w (store_playlist env e url nome doc w).1
  unfolding store_playlist raise_if new_uuid context ◌>>=◌ either raise
  store_playlist-keeps url nome doc w meets = elim (Bool-cases (leb 3 (length doc.playlists))) [
    | inl full ↦ rw full (KeepsLimits-frame.rel_refl w)
    | inr short ↦ rw short (
        KeepsLimits-frame.rel_trans w (tick w) _ (KeepsLimits-frame.rel_tick w) (
          related-bind KeepsLimits-frame (context _ (push_playlist env e _)) _ (tick w)
            (push_playlist-keeps _ doc (tick w) meets short)
            (λ _. Within-pure KeepsLimits-frame _)))
  ]

  push_album_link-keeps :
      (p : AlbumLink) (doc : EventoSocialFeatures) (w : World)
      → ((d : EventoSocialFeatures) → existing_or d e w.social_features ≡ doc)
      → leb 5 (length doc.album_links) ≡ false
      → KeepsLimits w (push_album_link env e p w).1
  unfolding push_album_link
  push_album_link-keeps p doc w meets short =
      related-bind KeepsLimits-frame _ _ w
        (change_or_insert-keeps_at env e (with_album_link p) w λ id now h. (
          h.0,
          ground (
            arith,
            length-append (met env e id now w).album_links (p ∷ []),
            short,
            ap (λ x. length x.album_links) (meets (new_social_defaults id e now)),
          ),
          h.2,
        ))
        (λ _. Within-pure KeepsLimits-frame tt)

  store_album_link-keeps :
      (url nome : String) (doc : EventoSocialFeatures) (w : World)
      → ((d : EventoSocialFeatures) → existing_or d e w.social_features ≡ doc)
      → KeepsLimits w (store_album_link env e u url nome doc w).1
  unfolding store_album_link raise_if new_uuid context ◌>>=◌ either raise
  store_album_link-keeps url nome doc w meets = elim (Bool-cases (leb 5 (length doc.album_links))) [
    | inl full ↦ rw full (KeepsLimits-frame.rel_refl w)
    | inr short ↦ rw short (
        KeepsLimits-frame.rel_trans w (tick w) _ (KeepsLimits-frame.rel_tick w) (
          related-bind KeepsLimits-frame (context _ (push_album_link env e _)) _ (tick w)
            (push_album_link-keeps _ doc (tick w) meets short)
            (λ _. Within-pure KeepsLimits-frame _)))
  ]

  pub add_playlist-keeps : (url nome : String) → Within KeepsLimits (add_playlist env e u url nome)
  unfolding add_playlist context
  add_playlist-keeps url nome =
      Within-bind KeepsLimits-frame _ _ (as_organizador-keeps env e u _) λ _.
        Within-bind_from KeepsLimits-frame
          (context "add playlist: find or create" (find_or_create env e)) _
          (Within-context KeepsLimits-frame _ (find_or_create env e) (find_or_create-keeps env e u))
          λ w doc h. store_playlist-keeps url nome doc _ (λ d.
            find_or_create-existing env e w doc d (context-eq-ok _ (find_or_create env e) w doc h))

  pub add_album_link-keeps :
      (url nome : String) → Within KeepsLimits (add_album_link env e u url nome)
  unfolding add_album_link context
  add_album_link-keeps url nome =
      Within-bind KeepsLimits-frame _ _ (as_participante-keeps env e u _) λ _.
        Within-bind_from KeepsLimits-frame
          (context "add album link: find or create" (find_or_create env e)) _
          (Within-context KeepsLimits-frame _ (find_or_create env e) (find_or_create-keeps env e u))
          λ w doc h. store_album_link-keeps url nome doc _ (λ d.
            find_or_create-existing env e w doc d (context-eq-ok _ (find_or_create env e) w doc h))
