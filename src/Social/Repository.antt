-- ===== src/Social/Repository.antt =====
-- `SocialFeaturesRepository` of internal/adapter/mongodb/social.go: the collection
-- evento_social_features. An update or a query meets the first document that its filter selects, and
-- the positional operator the first element of the list that it selects.
use backend_go_role_organiza.Prelude.{
  ℕ, String, ◌==◌, Bool, false, not, ◌&&◌, Option, none, some, List, [], ◌∷◌, ◌++◌, find, any,
  select, update_first, if◌then◌else◌,
}
use backend_go_role_organiza.ApiErr.{internal, conflict}
use backend_go_role_organiza.Social.Domain.{
  EventoSocialFeatures, DressCode, PlaylistLink, BringListItem, Checkin, AlbumLink,
}
use backend_go_role_organiza.World.{
  Env, Action, pure, gets, modify, ◌>>=◌, ◌>>◌, raise_if, time_now, new_uuid, driver,
}

abbrev pub of_evento : String → EventoSocialFeatures → Bool
of_evento evento_id d = d.evento_id == evento_id

-- `newSocialDefaults`, with what the decoder reads of the fields that it leaves out.
unfoldable pub new_social_defaults : String → String → ℕ → EventoSocialFeatures
new_social_defaults id evento_id now = record {
  id = id;
  evento_id = evento_id;
  dress_code = none;
  playlists = [];
  bring_list = [];
  checkin_habilitado = false;
  checkins = [];
  album_links = [];
  criado_em = now;
  atualizado_em = 0;
}

-- The document that a query for the event meets, or the one that an upsert inserts.
unfoldable pub existing_or :
    EventoSocialFeatures → String → List EventoSocialFeatures → EventoSocialFeatures
existing_or d evento_id [] = d
existing_or d evento_id (x ∷ xs) = if of_evento evento_id x then x else existing_or d evento_id xs

-- `UpdateOne` with `SetUpsert(true)`: `f` is `$set` and `$push`, `d` is `$setOnInsert`.
unfoldable pub upsert :
    EventoSocialFeatures
    → String
    → (EventoSocialFeatures → EventoSocialFeatures)
    → List EventoSocialFeatures
    → List EventoSocialFeatures
upsert d evento_id f [] = f d ∷ []
upsert d evento_id f (x ∷ xs) =
    if of_evento evento_id x then f x ∷ xs else x ∷ upsert d evento_id f xs

abbrev pub touch_social : ℕ → EventoSocialFeatures → EventoSocialFeatures
touch_social now d = record d { atualizado_em = now }

abbrev pub has_item : String → BringListItem → Bool
has_item item_id i = i.id == item_id

-- The `$elemMatch` of a claim.
abbrev pub is_claimable : String → BringListItem → Bool
is_claimable item_id i = i.id == item_id && i.claimed_by == ""

abbrev pub can_claim : String → String → EventoSocialFeatures → Bool
can_claim evento_id item_id d = d.evento_id == evento_id && any (is_claimable item_id) d.bring_list

abbrev pub holds_item : String → String → EventoSocialFeatures → Bool
holds_item evento_id item_id d = d.evento_id == evento_id && any (has_item item_id) d.bring_list

abbrev pub has_checkin : String → EventoSocialFeatures → Bool
has_checkin usuario_id d = any (λ c. c.usuario_id == usuario_id) d.checkins

-- The filter of a check-in: the user is not among those of the document.
abbrev pub can_check_in : String → String → EventoSocialFeatures → Bool
can_check_in evento_id usuario_id d = d.evento_id == evento_id && not (has_checkin usuario_id d)

abbrev pub set_claim : String → String → ℕ → BringListItem → BringListItem
set_claim usuario_id usuario_nome at i = record i {
  claimed_by = usuario_id;
  claimed_by_nome = usuario_nome;
  claimed_at = some at;
}

abbrev pub unset_claim : BringListItem → BringListItem
unset_claim i = record i { claimed_by = ""; claimed_by_nome = ""; claimed_at = none }

abbrev pub map_items :
    ℕ
    → (BringListItem → Bool)
    → (BringListItem → BringListItem)
    → EventoSocialFeatures
    → EventoSocialFeatures
map_items now p f d = record d { bring_list = update_first p f d.bring_list; atualizado_em = now }

-- The changes that the updates write, at the time of the write.
abbrev pub with_dress_code : Option DressCode → ℕ → EventoSocialFeatures → EventoSocialFeatures
with_dress_code dc now d = record d { dress_code = dc; atualizado_em = now }

abbrev pub with_playlist : PlaylistLink → ℕ → EventoSocialFeatures → EventoSocialFeatures
with_playlist p now d = record d { playlists = d.playlists ++ p ∷ []; atualizado_em = now }

abbrev pub with_item : BringListItem → ℕ → EventoSocialFeatures → EventoSocialFeatures
with_item item now d = record d { bring_list = d.bring_list ++ item ∷ []; atualizado_em = now }

abbrev pub with_album_link : AlbumLink → ℕ → EventoSocialFeatures → EventoSocialFeatures
with_album_link link now d = record d {
  album_links = d.album_links ++ link ∷ [];
  atualizado_em = now;
}

abbrev pub with_checkin_habilitado : Bool → ℕ → EventoSocialFeatures → EventoSocialFeatures
with_checkin_habilitado habilitado now d = record d {
  checkin_habilitado = habilitado;
  atualizado_em = now;
}

abbrev pub with_checkin : Checkin → ℕ → EventoSocialFeatures → EventoSocialFeatures
with_checkin c now d = record d { checkins = d.checkins ++ c ∷ []; atualizado_em = now }

abbrev pub without_playlist : String → ℕ → EventoSocialFeatures → EventoSocialFeatures
without_playlist id now d = record d {
  playlists = select (λ p. not (p.id == id)) d.playlists;
  atualizado_em = now;
}

abbrev pub without_item : String → ℕ → EventoSocialFeatures → EventoSocialFeatures
without_item id now d = record d {
  bring_list = select (λ i. not (has_item id i)) d.bring_list;
  atualizado_em = now;
}

abbrev pub without_album_link : String → ℕ → EventoSocialFeatures → EventoSocialFeatures
without_album_link id now d = record d {
  album_links = select (λ l. not (l.id == id)) d.album_links;
  atualizado_em = now;
}

module _ (env : Env) where
  unfoldable pub find_by_evento_id : String → Action (Option EventoSocialFeatures)
  find_by_evento_id evento_id = do
    driver env internal
    gets (λ w. find (of_evento evento_id) w.social_features)

  unfoldable pub change_or_insert :
      String → (ℕ → EventoSocialFeatures → EventoSocialFeatures) → Action EventoSocialFeatures
  unfolding new_social_defaults existing_or upsert
  change_or_insert evento_id f = do
    now ← time_now env
    id ← new_uuid env
    driver env internal
    doc ← gets (λ w. existing_or (new_social_defaults id evento_id now) evento_id w.social_features)
    modify λ w. record w {
      social_features =
          upsert (new_social_defaults id evento_id now) evento_id (f now) w.social_features;
    }
    pure doc

  unfoldable pub find_or_create : String → Action EventoSocialFeatures
  unfolding change_or_insert
  find_or_create evento_id = change_or_insert evento_id (λ now d. d)

  unfoldable pub set_dress_code : String → Option DressCode → Action (Unit {0})
  unfolding change_or_insert
  set_dress_code evento_id dc = change_or_insert evento_id (with_dress_code dc) >> pure tt

  unfoldable pub push_playlist : String → PlaylistLink → Action (Unit {0})
  unfolding change_or_insert
  push_playlist evento_id p = change_or_insert evento_id (with_playlist p) >> pure tt

  unfoldable pub push_bring_list_item : String → BringListItem → Action (Unit {0})
  unfolding change_or_insert
  push_bring_list_item evento_id item = change_or_insert evento_id (with_item item) >> pure tt

  unfoldable pub push_album_link : String → AlbumLink → Action (Unit {0})
  unfolding change_or_insert
  push_album_link evento_id link = change_or_insert evento_id (with_album_link link) >> pure tt

  unfoldable pub write_checkin_habilitado : String → Bool → Action (Unit {0})
  unfolding change_or_insert
  write_checkin_habilitado evento_id habilitado =
      change_or_insert evento_id (with_checkin_habilitado habilitado) >> pure tt

  -- `UpdateOne` without upsert: no document is not an error.
  unfoldable pub change_first :
      (EventoSocialFeatures → Bool)
      → (ℕ → EventoSocialFeatures → EventoSocialFeatures)
      → Action (Unit {0})
  change_first p f = do
    now ← time_now env
    driver env internal
    modify λ w. record w { social_features = update_first p (f now) w.social_features }

  unfoldable pub pull_playlist : String → String → Action (Unit {0})
  unfolding change_first
  pull_playlist evento_id playlist_id =
      change_first (of_evento evento_id) (without_playlist playlist_id)

  unfoldable pub pull_bring_list_item : String → String → Action (Unit {0})
  unfolding change_first
  pull_bring_list_item evento_id item_id = change_first (of_evento evento_id) (without_item item_id)

  unfoldable pub pull_album_link : String → String → Action (Unit {0})
  unfolding change_first
  pull_album_link evento_id link_id =
      change_first (of_evento evento_id) (without_album_link link_id)

  unfoldable pub write_bring_list_item : String → String → String → String → Action (Unit {0})
  unfolding change_first
  write_bring_list_item evento_id item_id nome quantidade =
      change_first (holds_item evento_id item_id) λ now.
        map_items now (has_item item_id) (λ i. record i { nome = nome; quantidade = quantidade })

  unfoldable pub clear_claim : String → String → Action (Unit {0})
  unfolding change_first
  clear_claim evento_id item_id =
      change_first (holds_item evento_id item_id)
        λ now. map_items now (has_item item_id) unset_claim

  -- `FindOneAndUpdate`: a conflict where the filter selects no document.
  unfoldable pub change_or_conflict :
      String
      → (EventoSocialFeatures → Bool)
      → (ℕ → EventoSocialFeatures → EventoSocialFeatures)
      → Action (Unit {0})
  change_or_conflict message p f = do
    now ← time_now env
    driver env internal
    found ← gets (λ w. any p w.social_features)
    raise_if (not found) (conflict message)
    modify λ w. record w { social_features = update_first p (f now) w.social_features }

  unfoldable pub write_claim : String → String → String → String → ℕ → Action (Unit {0})
  unfolding change_or_conflict
  write_claim evento_id item_id usuario_id usuario_nome claimed_at =
      change_or_conflict "BRING_LIST_ITEM_ALREADY_CLAIMED" (can_claim evento_id item_id)
        λ now. map_items now (is_claimable item_id) (set_claim usuario_id usuario_nome claimed_at)

  unfoldable pub push_checkin : String → Checkin → Action (Unit {0})
  unfolding change_or_conflict
  push_checkin evento_id c =
      change_or_conflict "CHECKIN_ALREADY_REGISTERED" (can_check_in evento_id c.usuario_id)
        (with_checkin c)
