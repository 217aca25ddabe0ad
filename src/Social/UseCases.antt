-- ===== src/Social/UseCases.antt =====
-- internal/usecase/social: one use case per file. Each asks for the phase of the event and for the
-- role of the user before it reads or writes the social features.
use backend_go_role_organiza.Prelude.{
  String, ◌==◌, Bool, false, not, ◌&&◌, Option, none, some, length, leb,
}
use backend_go_role_organiza.ApiErr.{forbidden, bad_request, conflict}
use backend_go_role_organiza.Social.Domain.{
  EventoSocialFeatures, DressCode, PlaylistLink, BringListItem, Checkin, AlbumLink, max_playlists,
  max_album_links, dress_code_tematico, fase_aguardando_aceite, detect_playlist_provider,
  detect_album_provider,
}
use backend_go_role_organiza.Social.Auth.{
  fase_at_least, is_organizador, is_participante_confirmado_ou_organizador,
}
use backend_go_role_organiza.Social.Repository.{
  new_social_defaults, find_by_evento_id, find_or_create, set_dress_code, push_playlist,
  push_bring_list_item, push_album_link, write_checkin_habilitado, pull_playlist,
  pull_bring_list_item, pull_album_link, write_bring_list_item, clear_claim, write_claim,
  push_checkin,
}
use backend_go_role_organiza.World.{
  Env, Action, pure, context, ◌>>=◌, ◌>>◌, raise_if, time_now, new_uuid,
}

unfoldable pub habilitado : Option EventoSocialFeatures → Bool
habilitado none = false
habilitado (some d) = d.checkin_habilitado

unfoldable pub or_empty : String → Option EventoSocialFeatures → EventoSocialFeatures
unfolding new_social_defaults
or_empty evento_id none = new_social_defaults "" evento_id 0
or_empty evento_id (some d) = d

module _ (env : Env) where
  -- Steps 1 to 3 of the use cases that only the organiser may call.
  unfoldable pub as_organizador : String → String → String → Action (Unit {0})
  unfolding fase_at_least is_organizador
  as_organizador what evento_id usuario_id = do
    fase_at_least env evento_id fase_aguardando_aceite
    ok ← context what (is_organizador env evento_id usuario_id)
    raise_if (not ok) (forbidden "FORBIDDEN")

  -- Steps 1 to 3 of the use cases that a confirmed participant may call too.
  unfoldable pub as_participante : String → String → String → Action (Unit {0})
  unfolding fase_at_least is_participante_confirmado_ou_organizador
  as_participante what evento_id usuario_id = do
    fase_at_least env evento_id fase_aguardando_aceite
    ok ← context what (is_participante_confirmado_ou_organizador env evento_id usuario_id)
    raise_if (not ok) (forbidden "FORBIDDEN")

  unfoldable pub get_social_features : String → String → Action EventoSocialFeatures
  unfolding as_participante find_by_evento_id or_empty
  get_social_features evento_id usuario_id = do
    as_participante "get social features: verificar autorização" evento_id usuario_id
    doc ← context "get social features" (find_by_evento_id env evento_id)
    pure (or_empty evento_id doc)

  unfoldable pub set_evento_dress_code :
      String → String → String → String → Action EventoSocialFeatures
  unfolding as_organizador find_or_create set_dress_code
  set_evento_dress_code evento_id usuario_id tipo descricao_tematico = do
    raise_if (tipo == "") (bad_request "tipo é obrigatório")
    raise_if (tipo == dress_code_tematico && descricao_tematico == "")
        (bad_request "descricaoTematico é obrigatório quando tipo é TEMATICO")
    as_organizador "set dress code: verificar autorização" evento_id usuario_id
    doc ← context "set dress code: find or create" (find_or_create env evento_id)
    let dc : DressCode = record { tipo = tipo; descricao_tematico = descricao_tematico }
    context "set dress code" (set_dress_code env evento_id (some dc))
    pure (record doc { dress_code = some dc })

  unfoldable pub remove_dress_code : String → String → Action (Unit {0})
  unfolding as_organizador set_dress_code
  remove_dress_code evento_id usuario_id = do
    as_organizador "remove dress code: verificar autorização" evento_id usuario_id
    context "remove dress code" (set_dress_code env evento_id none)

  unfoldable pub store_playlist :
      String → String → String → EventoSocialFeatures → Action PlaylistLink
  unfolding push_playlist detect_playlist_provider
  store_playlist evento_id url nome doc = do
    raise_if (leb max_playlists (length doc.playlists)) (bad_request "MAX_PLAYLISTS_REACHED")
    id ← new_uuid env
    let (provider, embed_url) = detect_playlist_provider url
    let playlist : PlaylistLink = record {
      id = id;
      url = url;
      nome = nome;
      provider = provider;
      embed_url = embed_url;
    }
    context "add playlist" (push_playlist env evento_id playlist)
    pure playlist

  unfoldable pub add_playlist : String → String → String → String → Action PlaylistLink
  unfolding as_organizador find_or_create store_playlist
  add_playlist evento_id usuario_id url nome = do
    as_organizador "add playlist: verificar autorização" evento_id usuario_id
    doc ← context "add playlist: find or create" (find_or_create env evento_id)
    store_playlist evento_id url nome doc

  unfoldable pub remove_playlist : String → String → String → Action (Unit {0})
  unfolding as_organizador pull_playlist
  remove_playlist evento_id usuario_id playlist_id = do
    as_organizador "remove playlist: verificar autorização" evento_id usuario_id
    context "remove playlist" (pull_playlist env evento_id playlist_id)

  unfoldable pub store_album_link :
      String → String → String → String → EventoSocialFeatures → Action AlbumLink
  unfolding push_album_link detect_album_provider
  store_album_link evento_id usuario_id url nome doc = do
    raise_if (leb max_album_links (length doc.album_links)) (bad_request "MAX_ALBUM_LINKS_REACHED")
    id ← new_uuid env
    let link : AlbumLink = record {
      id = id;
      url = url;
      nome = nome;
      provider = detect_album_provider url;
      adicionado_por = usuario_id;
    }
    context "add album link" (push_album_link env evento_id link)
    pure link

  unfoldable pub add_album_link : String → String → String → String → Action AlbumLink
  unfolding as_participante find_or_create store_album_link
  add_album_link evento_id usuario_id url nome = do
    as_participante "add album link: verificar autorização" evento_id usuario_id
    doc ← context "add album link: find or create" (find_or_create env evento_id)
    store_album_link evento_id usuario_id url nome doc

  unfoldable pub remove_album_link : String → String → String → Action (Unit {0})
  unfolding as_organizador pull_album_link
  remove_album_link evento_id usuario_id link_id = do
    as_organizador "remove album link: verificar autorização" evento_id usuario_id
    context "remove album link" (pull_album_link env evento_id link_id)

  unfoldable pub add_bring_list_item : String → String → String → String → Action BringListItem
  unfolding as_organizador find_or_create push_bring_list_item
  add_bring_list_item evento_id usuario_id nome quantidade = do
    raise_if (nome == "") (bad_request "nome é obrigatório")
    as_organizador "add bring list item: verificar autorização" evento_id usuario_id
    context "add bring list item: find or create" (find_or_create env evento_id)
    id ← new_uuid env
    let item : BringListItem = record {
      id = id;
      nome = nome;
      quantidade = quantidade;
      claimed_by = "";
      claimed_by_nome = "";
      claimed_at = none;
    }
    context "add bring list item" (push_bring_list_item env evento_id item)
    pure item

  unfoldable pub update_bring_list_item :
      String → String → String → String → String → Action (Unit {0})
  unfolding as_organizador write_bring_list_item
  update_bring_list_item evento_id usuario_id item_id nome quantidade = do
    as_organizador "update bring list item: verificar autorização" evento_id usuario_id
    context "update bring list item" (write_bring_list_item env evento_id item_id nome quantidade)

  unfoldable pub remove_bring_list_item : String → String → String → Action (Unit {0})
  unfolding as_organizador pull_bring_list_item
  remove_bring_list_item evento_id usuario_id item_id = do
    as_organizador "remove bring list item: verificar autorização" evento_id usuario_id
    context "remove bring list item" (pull_bring_list_item env evento_id item_id)

  unfoldable pub claim_bring_list_item : String → String → String → String → Action (Unit {0})
  unfolding as_participante write_claim
  claim_bring_list_item evento_id usuario_id usuario_nome item_id = do
    as_participante "claim bring list item: verificar autorização" evento_id usuario_id
    now ← time_now env
    context "claim bring list item" (write_claim env evento_id item_id usuario_id usuario_nome now)

  unfoldable pub unclaim_bring_list_item : String → String → String → Action (Unit {0})
  unfolding as_participante clear_claim
  unclaim_bring_list_item evento_id usuario_id item_id = do
    as_participante "unclaim bring list item: verificar autorização" evento_id usuario_id
    context "unclaim bring list item" (clear_claim env evento_id item_id)

  unfoldable pub set_checkin_habilitado : String → String → Bool → Action (Unit {0})
  unfolding as_organizador write_checkin_habilitado
  set_checkin_habilitado evento_id usuario_id value = do
    as_organizador "set checkin habilitado: verificar autorização" evento_id usuario_id
    context "set checkin habilitado" (write_checkin_habilitado env evento_id value)

  unfoldable pub do_checkin : String → String → String → Action Checkin
  unfolding as_participante find_by_evento_id habilitado push_checkin
  do_checkin evento_id usuario_id usuario_nome = do
    as_participante "do checkin: verificar autorização" evento_id usuario_id
    doc ← context "do checkin: ler features" (find_by_evento_id env evento_id)
    raise_if (not (habilitado doc)) (conflict "CHECKIN_NOT_ENABLED")
    now ← time_now env
    let checkin : Checkin = record { usuario_id = usuario_id; nome = usuario_nome; timestamp = now }
    context "do checkin" (push_checkin env evento_id checkin)
    pure checkin
