-- ===== src/Social/Domain/Entities.antt =====
-- The entities of internal/domain/social/social.go. A field that is absent from a document is read
-- as the empty text, the empty list or none.
use backend_go_role_organiza.Prelude.{ℕ, String, Bool, Option, List}

abbrev pub max_playlists : ℕ
max_playlists = 3

abbrev pub max_album_links : ℕ
max_album_links = 5

abbrev pub dress_code_tematico : String
dress_code_tematico = "TEMATICO"

abbrev pub fase_aguardando_aceite : String
fase_aguardando_aceite = "AGUARDANDO_ACEITE"

pub data PlaylistProvider : Type 0 where
  spotify youtube other : PlaylistProvider

pub data AlbumProvider : Type 0 where
  google_photos icloud other : AlbumProvider

pub record DressCode : Type 0 where
  pub tipo : String
  pub descricao_tematico : String

pub record PlaylistLink : Type 0 where
  pub id : String
  pub url : String
  pub nome : String
  pub provider : PlaylistProvider
  pub embed_url : String

pub record BringListItem : Type 0 where
  pub id : String
  pub nome : String
  pub quantidade : String
  pub claimed_by : String
  pub claimed_by_nome : String
  pub claimed_at : Option ℕ

pub record Checkin : Type 0 where
  pub usuario_id : String
  pub nome : String
  pub timestamp : ℕ

pub record AlbumLink : Type 0 where
  pub id : String
  pub url : String
  pub nome : String
  pub provider : AlbumProvider
  pub adicionado_por : String

pub record EventoSocialFeatures : Type 0 where
  pub id : String
  pub evento_id : String
  pub dress_code : Option DressCode
  pub playlists : List PlaylistLink
  pub bring_list : List BringListItem
  pub checkin_habilitado : Bool
  pub checkins : List Checkin
  pub album_links : List AlbumLink
  pub criado_em : ℕ
  pub atualizado_em : ℕ
