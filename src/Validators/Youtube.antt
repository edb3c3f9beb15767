-- ===== src/Validators/Youtube.antt =====
-- backend/internal/validators/youtube.go, with the types of validator.go. `url.Parse` and `URL.String`
-- are parameters.
use open_music_player.Prelude.{
  ℕ, zero, suc, Bool, true, false, ◌&&◌, ◌||◌, Option, none, some, [], ◌∷◌, ◌++◌, map,
  if◌then◌else◌, leb, ◌==◌, length, drop, Text, codes, text_eq, trim_space, trim_left, is_space,
  ParsedUrl,
}
use open_music_player.Errors.Retry.{starts_with, lower}

pub data SourceType : Type 0 where
  source_youtube source_soundcloud source_unknown : SourceType

pub record ValidationResult : Type 0 where
  pub valid : Bool
  pub source_type : SourceType
  pub media_id : Text
  pub media_type : Text
  pub url : Text
  pub canonical : Text
  pub error : Text

abbrev pub is_id_char : ℕ → Bool
is_id_char c =
    (leb b'a' c && leb c b'z')
    || (leb b'A' c && leb c b'Z')
    || (leb b'0' c && leb c b'9')
    || c == b'_'
    || c == b'-'

abbrev pub id_chars : ℕ → Text → Bool
id_chars n [] = n == 0
id_chars zero (c ∷ s) = false
id_chars (suc n) (c ∷ s) = is_id_char c && id_chars n s

-- `^[a-zA-Z0-9_-]{11}$`
unfoldable pub is_video_id : Text → Bool
is_video_id s = id_chars 11 s

-- `strings.TrimPrefix`
unfoldable pub trim_prefix : Text → Text → Text
unfolding starts_with
trim_prefix s p = if starts_with s p then drop (length p) s else s

-- `s[:idx]` for the index of the character, and `s` where it does not occur.
abbrev pub until : ℕ → Text → Text
until d [] = []
until d (c ∷ s) = let rest = until d s in if c == d then [] else c ∷ rest

unfoldable pub plain_host : ParsedUrl → Text
unfolding trim_prefix
plain_host url = trim_prefix (trim_prefix (map lower url.host) (codes "www.")) (codes "m.")

abbrev pub clean : Text × Text → Text × Text
clean (id, media_type) = (until b'?' (until b'/' id), media_type)

unfoldable pub extract_from_youtube_com : ParsedUrl → Text × Text
unfolding trim_prefix starts_with
extract_from_youtube_com url =
    let path = url.path in
    clean (
      if starts_with path (codes "/watch")
      then (url.query_get (codes "v"), codes "video")
      else if starts_with path (codes "/shorts/")
      then (trim_prefix path (codes "/shorts/"), codes "short")
      else if starts_with path (codes "/embed/")
      then (trim_prefix path (codes "/embed/"), codes "video")
      else if starts_with path (codes "/v/")
      then (trim_prefix path (codes "/v/"), codes "video")
      else if starts_with path (codes "/live/")
      then (trim_prefix path (codes "/live/"), codes "live")
      else ([], []))

unfoldable pub media_of : ParsedUrl → Option (Text × Text)
unfolding plain_host extract_from_youtube_com trim_prefix text_eq
media_of url =
    let host = plain_host url in
    if text_eq host (codes "youtu.be")
    then some (trim_prefix url.path (codes "/"), codes "video")
    else if text_eq host (codes "youtube.com") || text_eq host (codes "music.youtube.com")
    then some (extract_from_youtube_com url)
    else none

abbrev pub invalid : Text → Text → Text → ValidationResult
invalid raw id reason = record {
  valid = false;
  source_type = source_youtube;
  media_id = id;
  media_type = [];
  url = raw;
  canonical = [];
  error = reason;
}

abbrev pub canonical_url : Text → Text
canonical_url id = codes "https://www.youtube.com/watch?v=" ++ id

-- With whether there is no identifier, and whether it has the form of one.
abbrev pub of_id : Text → Text → Text → Bool → Bool → ValidationResult
of_id raw id media_type true fits = invalid raw [] (codes "could not extract video ID from URL")
of_id raw id media_type false false = invalid raw id (codes "invalid video ID format")
of_id raw id media_type false true = record {
  valid = true;
  source_type = source_youtube;
  media_id = id;
  media_type = media_type;
  url = raw;
  canonical = canonical_url id;
  error = [];
}

unfoldable pub of_media : Text → Option (Text × Text) → ValidationResult
unfolding text_eq is_video_id
of_media raw none = invalid raw [] (codes "not a YouTube URL")
of_media raw (some (id, media_type)) = of_id raw id media_type (text_eq id []) (is_video_id id)

module _ (parse_url : Text → Option ParsedUrl) (string_of : ParsedUrl → Text) where
  unfoldable pub can_handle : Text → Bool
  unfolding trim_space trim_left is_space plain_host text_eq
  can_handle raw = elim (parse_url (trim_space raw)) [
    | none ↦ false
    | some url ↦
        text_eq (plain_host url) (codes "youtube.com")
        || text_eq (plain_host url) (codes "youtu.be")
        || text_eq (plain_host url) (codes "music.youtube.com")
  ]

  -- With whether the address has no scheme, and whether it has one of the web.
  unfoldable pub of_scheme : Bool → Bool → Text → ParsedUrl → ValidationResult
  unfolding of_media media_of
  of_scheme true web raw url =
      of_media (string_of (record url { scheme = codes "https" })) (media_of url)
  of_scheme false false raw url = invalid raw [] (codes "invalid URL scheme")
  of_scheme false true raw url = of_media raw (media_of url)

  unfoldable pub of_parsed : Text → Option ParsedUrl → ValidationResult
  unfolding of_scheme text_eq
  of_parsed raw none = invalid raw [] (codes "invalid URL format")
  of_parsed raw (some url) =
      of_scheme (text_eq url.scheme [])
        (text_eq url.scheme (codes "http") || text_eq url.scheme (codes "https")) raw url

  unfoldable pub validate : Text → ValidationResult
  unfolding trim_space trim_left is_space of_parsed
  validate raw = of_parsed (trim_space raw) (parse_url (trim_space raw))
