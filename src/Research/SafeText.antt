-- ===== src/Research/SafeText.antt =====
-- backend/internal/research/protocol.go: the checks of a text and of a source's address. The patterns
-- are raw strings with two backslashes, so `\\` stands for one backslash of the text.
use open_music_player.Prelude.{
  ParsedUrl, ℕ, ◌+◌, Bool, false, not, ◌&&◌, ◌||◌, Option, none, some, List, [], ◌∷◌, map,
  if◌then◌else◌, leb, ◌==◌, any, drop, Text, codes, text_eq, byte_length, trim_space, is_space,
  trim_left,
}
use open_music_player.Errors.Retry.{starts_with, contains_text, lower}

-- A letter as `(?i)` matches it against the lower case letters of a pattern.
abbrev pub fold_case : ℕ → ℕ
fold_case c =
    if leb b'A' c && leb c b'Z'
    then c + 32
    else if c == 0x17f
    then b's'
    else if c == 0x212a
    then b'k'
    else c

abbrev pub not_newline : Text → Bool
not_newline [] = false
not_newline (c ∷ s) = not (c == b'\n')

-- `www\\.`: a backslash and any character but the newline.
unfoldable pub www_matches : Text → Bool
unfolding starts_with
www_matches [] = false
www_matches (c ∷ s) =
    (starts_with (c ∷ s) (codes "www\\") && not_newline (drop 4 (c ∷ s))) || www_matches s

unfoldable pub url_like : Text → Bool
unfolding contains_text www_matches
url_like s =
    let t = map fold_case s in
    contains_text t (codes "http://")
    || contains_text t (codes "https://")
    || www_matches t
    || contains_text t (codes "ftp://")
    || contains_text t (codes "mailto:")

unfoldable pub secret_like : Text → Bool
unfolding starts_with contains_text
secret_like s =
    let t = map fold_case s in
    contains_text t (codes "bearer\\s")
    || contains_text t (codes "apikey")
    || contains_text t (codes "api_key")
    || contains_text t (codes "api-key")
    || contains_text t (codes "token")
    || contains_text t (codes "secret")
    || contains_text t (codes "password")
    || starts_with t (codes "sk-")

abbrev pub is_line_end : ℕ → Bool
is_line_end c = c == b'\r' || c == b'\n' || c == 0

unfoldable pub safe_text : Text → ℕ → Bool
unfolding byte_length url_like secret_like
safe_text s n =
    leb (byte_length s) n && not (url_like s) && not (secret_like s) && not (any is_line_end s)

unfoldable pub safe_required_text : Text → ℕ → Bool
unfolding trim_space trim_left is_space text_eq safe_text
safe_required_text s n = not (text_eq (trim_space s) []) && safe_text s n

unfoldable pub safe_required_id : Text → Bool
unfolding safe_required_text
safe_required_id s = safe_required_text s 128

unfoldable pub safe_optional_id : Text → Bool
unfolding text_eq safe_required_id
safe_optional_id s = text_eq s [] || safe_required_id s

unfoldable pub allowed_provider : Text → Bool
unfolding text_eq
allowed_provider s = text_eq s (codes "youtube") || text_eq s (codes "soundcloud")

abbrev pub is_slash : ℕ → Bool
is_slash c = c == b'/'

-- The empty text, or a text of slashes only.
abbrev pub only_slashes : Text → Bool
only_slashes s = not (any (λ c. not (is_slash c)) s)

-- A slash with something else than slashes behind it.
abbrev pub slash_between : Text → Bool
slash_between [] = false
slash_between (c ∷ s) = (is_slash c && not (only_slashes s)) || slash_between s

-- `len(strings.Split(strings.Trim(path, "/"), "/")) >= 2`: what `Trim` leaves has a slash.
abbrev pub two_segments : Text → Bool
two_segments [] = false
two_segments (c ∷ s) = if is_slash c then two_segments s else slash_between s

unfoldable pub youtube_path : ParsedUrl → Bool
unfolding text_eq trim_space trim_left is_space starts_with
youtube_path url =
    let clip =
      starts_with url.path (codes "/shorts/")
      || starts_with url.path (codes "/embed/")
      || starts_with url.path (codes "/live/") in
    if text_eq url.path (codes "/watch")
    then not (text_eq (trim_space (url.query_get (codes "v"))) [])
    else if text_eq url.path (codes "/playlist")
    then not (text_eq (trim_space (url.query_get (codes "list"))) [])
    else clip

abbrev pub youtube_hosts : List Text
youtube_hosts =
    codes "youtube.com"
    ∷ codes "www.youtube.com"
    ∷ codes "m.youtube.com"
    ∷ codes "music.youtube.com"
    ∷ []

abbrev pub soundcloud_hosts : List Text
soundcloud_hosts =
    codes "soundcloud.com" ∷ codes "www.soundcloud.com" ∷ codes "m.soundcloud.com" ∷ []

unfoldable pub provider_url : Text → ParsedUrl → Bool
unfolding text_eq youtube_path
provider_url provider url =
    let host = map lower url.hostname in
    if text_eq provider (codes "youtube")
    then (if text_eq host (codes "youtu.be")
        then not (only_slashes url.path)
        else (any (text_eq host) youtube_hosts && youtube_path url))
    else (text_eq provider (codes "soundcloud")
        && any (text_eq host) soundcloud_hosts
        && two_segments url.path)

-- `parsed` is what `url.Parse` makes of the address, `none` where it fails.
unfoldable pub canonical_provider_url : Text → Option ParsedUrl → Bool
unfolding text_eq provider_url
canonical_provider_url provider none = false
canonical_provider_url provider (some url) =
    text_eq url.scheme (codes "https")
    && not url.has_user
    && text_eq url.fragment []
    && not (text_eq url.host [])
    && provider_url provider url
