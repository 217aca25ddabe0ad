-- ===== src/Social/Domain/Providers.antt =====
-- The detection of providers in internal/domain/social/social.go. The two regular expressions are
-- written out: a leftmost match, with the longest run of identifier characters as its group.
use Prim.Native.Char.{Char, code}
use backend_go_role_organiza.Prelude.{
  String, Bool, true, false, ◌&&◌, ◌||◌, Option, none, some, [], ◌∷◌, leb, eqb, join, if◌then◌else◌,
}
use backend_go_role_organiza.Social.Domain.Entities.{PlaylistProvider, AlbumProvider}

-- What follows `p` in a text that starts with it.
unfoldable pub after_prefix : String → String → Option String
after_prefix String.[] s = some s
after_prefix (String.◌∷◌ c p) String.[] = none
after_prefix (String.◌∷◌ c p) (String.◌∷◌ d s) =
    if eqb (code c) (code d) then after_prefix p s else none

-- `strings.Contains(s, p)`
unfoldable pub contains : String → String → Bool
unfolding after_prefix
contains String.[] p = elim (after_prefix p String.[]) [ none ↦ false | some _ ↦ true ]
contains (String.◌∷◌ c s) p =
    elim (after_prefix p (String.◌∷◌ c s)) [ none ↦ false | some _ ↦ true ] || contains s p

unfoldable pub is_alphanumeric : Char → Bool
is_alphanumeric c =
    leb b'a' (code c) && leb (code c) b'z'
    || leb b'A' (code c) && leb (code c) b'Z'
    || leb b'0' (code c) && leb (code c) b'9'

-- `[a-zA-Z0-9_-]`
unfoldable pub is_id_char : Char → Bool
unfolding is_alphanumeric
is_id_char c = is_alphanumeric c || eqb (code c) b'_' || eqb (code c) b'-'

unfoldable pub take_while : (Char → Bool) → String → String
take_while p String.[] = String.[]
take_while p (String.◌∷◌ c s) = if p c then String.◌∷◌ c (take_while p s) else String.[]

-- A run of at least one character, as `+` asks.
unfoldable pub run : (Char → Bool) → String → Option String
unfolding take_while
run p s = elim (take_while p s) [ String.[] ↦ none | String.◌∷◌ c t ↦ some (String.◌∷◌ c t) ]

unfoldable pub or_else : {A : Type 0} → Option A → Option A → Option A
or_else none o = o
or_else (some a) o = some a

unfoldable pub run_after : (Char → Bool) → Option String → Option String
unfolding run
run_after p none = none
run_after p (some s) = run p s

-- `.*list=([a-zA-Z0-9_-]+)`: the last such place on the line.
unfoldable pub last_list : String → Option String
unfolding or_else run_after after_prefix is_id_char
last_list String.[] = none
last_list (String.◌∷◌ c s) =
    let later = last_list s in
    or_else (if eqb (code c) 10 then none else later)
      (run_after is_id_char (after_prefix "list=" (String.◌∷◌ c s)))

unfoldable pub spotify_at : String → Option String
unfolding run_after after_prefix is_alphanumeric
spotify_at s = run_after is_alphanumeric (after_prefix "open.spotify.com/playlist/" s)

unfoldable pub watch_list : Option String → Option String
unfolding last_list
watch_list none = none
watch_list (some s) = last_list s

unfoldable pub youtube_at : String → Option String
unfolding or_else run_after after_prefix is_id_char watch_list
youtube_at s = or_else (run_after is_id_char (after_prefix "youtu.be/" s)) (
    or_else (run_after is_id_char (after_prefix "youtube.com/playlist?list=" s))
      (watch_list (after_prefix "youtube.com/watch?" s)))

-- `FindStringSubmatch`: the group of the leftmost match.
unfoldable pub find_submatch : (String → Option String) → String → Option String
unfolding or_else
find_submatch at_place String.[] = at_place String.[]
find_submatch at_place (String.◌∷◌ c s) =
    let later = find_submatch at_place s in or_else (at_place (String.◌∷◌ c s)) later

unfoldable pub as_youtube : Option String → PlaylistProvider × String
as_youtube none = (PlaylistProvider.other, "")
as_youtube (some list) =
    (PlaylistProvider.youtube, join ("https://www.youtube.com/embed/videoseries?list=" ∷ list ∷ []))

unfoldable pub detect_playlist_provider : String → PlaylistProvider × String
unfolding find_submatch spotify_at youtube_at as_youtube
detect_playlist_provider url = elim (find_submatch spotify_at url) [
  | some list ↦ (
    PlaylistProvider.spotify,
    join ("https://open.spotify.com/embed/playlist/" ∷ list ∷ "?utm_source=generator&theme=0" ∷ []),
  )
  | none ↦ as_youtube (find_submatch youtube_at url)
]

unfoldable pub detect_album_provider : String → AlbumProvider
unfolding contains
detect_album_provider url =
    if contains url "photos.google.com" || contains url "google.com/photos"
    then AlbumProvider.google_photos
    else if contains url "icloud.com/photos" || contains url "icloud.com/sharedalbum"
    then AlbumProvider.icloud
    else AlbumProvider.other
