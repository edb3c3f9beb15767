-- ===== src/Validators/Canonical.antt =====
-- backend/internal/validators/youtube.go: the canonical address of a video.
use open_music_player.Prelude.{
  ◌≡◌, refl, ap, ◌∙◌, ℕ, zero, suc, arith, Bool, true, false, Option, none, some, [], ◌∷◌,
  if◌then◌else◌, ◌==◌, any, Text, codes, text_eq, is_space, trim_space, trim_space_solid, ParsedUrl,
}
use open_music_player.Validators.Youtube.{
  ValidationResult, source_youtube, is_id_char, id_chars, is_video_id, until, clean, media_of,
  canonical_url, of_id, of_media, of_scheme, of_parsed, validate,
}

id_char_kinds : (c : ℕ) → is_id_char c ≡ true → ((c == b'/') ≡ false) × ((c == b'?') ≡ false)
id_char_kinds c h = (ground arith, ground arith)

id_char_solid : (c : ℕ) → is_id_char c ≡ true → is_space c ≡ false
unfolding is_space
id_char_solid c h = ground arith

id_chars-solid : (n : ℕ) (s : Text) → id_chars n s ≡ true → any is_space s ≡ false
id_chars-solid n [] h = refl
id_chars-solid zero (c ∷ s) h = ground arith
id_chars-solid (suc n) (c ∷ s) h =
    rw (any, id_char_solid c (ground arith)) (id_chars-solid n s (ground arith))

until-slash : (n : ℕ) (s : Text) → id_chars n s ≡ true → until b'/' s ≡ s
until-slash n [] h = refl
until-slash zero (c ∷ s) h = ground arith
until-slash (suc n) (c ∷ s) h =
    rw ((id_char_kinds c (ground arith)).0, until-slash n s (ground arith)) refl

until-query : (n : ℕ) (s : Text) → id_chars n s ≡ true → until b'?' s ≡ s
until-query n [] h = refl
until-query zero (c ∷ s) h = ground arith
until-query (suc n) (c ∷ s) h =
    rw ((id_char_kinds c (ground arith)).1, until-query n s (ground arith)) refl

clean-id :
    (id media_type : Text) → is_video_id id ≡ true → clean (id, media_type) ≡ (id, media_type)
unfolding is_video_id
clean-id id media_type h = rw (until-slash 11 id h, until-query 11 id h) refl

-- What `url.Parse` reads from a canonical address.
abbrev pub watch_url : Text → ParsedUrl
watch_url id = record {
  scheme = codes "https";
  has_user = false;
  fragment = [];
  host = codes "www.youtube.com";
  hostname = codes "www.youtube.com";
  path = codes "/watch";
  query_get = λ name. if text_eq name (codes "v") then id else [];
}

media_of-watch_url :
    (id : Text) → is_video_id id ≡ true → media_of (watch_url id) ≡ some (id, codes "video")
unfolding media_of
media_of-watch_url id h = ap some (clean-id id (codes "video") h)

abbrev HasCanonical : ValidationResult → Type 0
HasCanonical r =
    (is_video_id r.media_id ≡ true)
    × (text_eq r.media_id [] ≡ false)
    × (r.canonical ≡ canonical_url r.media_id)

of_id-HasCanonical :
    (raw id media_type : Text) (empty fits : Bool)
    → text_eq id [] ≡ empty
    → is_video_id id ≡ fits
    → (of_id raw id media_type empty fits).valid ≡ true
    → HasCanonical (of_id raw id media_type empty fits)
of_id-HasCanonical raw id media_type true fits e f valid = ground arith
of_id-HasCanonical raw id media_type false false e f valid = ground arith
of_id-HasCanonical raw id media_type false true e f valid = (f, e, refl)

of_media-HasCanonical :
    (raw : Text) (m : Option (Text × Text))
    → (of_media raw m).valid ≡ true
    → HasCanonical (of_media raw m)
unfolding of_media
of_media-HasCanonical raw none valid = ground arith
of_media-HasCanonical raw (some (id, media_type)) valid =
    of_id-HasCanonical raw id media_type (text_eq id []) (is_video_id id) refl refl valid

-- The result for the canonical address of a video.
abbrev pub video : Text → ValidationResult
video id = record {
  valid = true;
  source_type = source_youtube;
  media_id = id;
  media_type = codes "video";
  url = canonical_url id;
  canonical = canonical_url id;
  error = [];
}

of_media-video :
    (id : Text)
    → is_video_id id ≡ true
    → text_eq id [] ≡ false
    → of_media (canonical_url id) (media_of (watch_url id)) ≡ video id
unfolding of_media
of_media-video id fits filled =
    ap (of_media (canonical_url id)) (media_of-watch_url id fits) ∙ rw (filled, fits) refl

canonical_url-solid :
    (id : Text) → is_video_id id ≡ true → trim_space (canonical_url id) ≡ canonical_url id
unfolding is_space is_video_id
canonical_url-solid id fits = trim_space_solid (canonical_url id) (id_chars-solid 11 id fits)

module _ (parse_url : Text → Option ParsedUrl) (string_of : ParsedUrl → Text) where
  of_scheme-HasCanonical :
      (empty web : Bool) (raw : Text) (url : ParsedUrl)
      → (of_scheme parse_url string_of empty web raw url).valid ≡ true
      → HasCanonical (of_scheme parse_url string_of empty web raw url)
  unfolding of_scheme
  of_scheme-HasCanonical true web raw url valid = of_media-HasCanonical _ (media_of url) valid
  of_scheme-HasCanonical false false raw url valid = ground arith
  of_scheme-HasCanonical false true raw url valid = of_media-HasCanonical raw (media_of url) valid

  of_parsed-HasCanonical :
      (raw : Text) (parsed : Option ParsedUrl)
      → (of_parsed parse_url string_of raw parsed).valid ≡ true
      → HasCanonical (of_parsed parse_url string_of raw parsed)
  unfolding of_parsed
  of_parsed-HasCanonical raw none valid = ground arith
  of_parsed-HasCanonical raw (some url) valid = of_scheme-HasCanonical _ _ raw url valid

  validate-video :
      (id : Text)
      → is_video_id id ≡ true
      → text_eq id [] ≡ false
      → parse_url (canonical_url id) ≡ some (watch_url id)
      → validate parse_url string_of (canonical_url id) ≡ video id
  unfolding validate of_parsed of_scheme
  validate-video id fits filled reads =
      ap (λ t. of_parsed parse_url string_of t (parse_url t)) (canonical_url-solid id fits)
      ∙ ap (of_parsed parse_url string_of (canonical_url id)) reads
      ∙ of_media-video id fits filled

  validate-HasCanonical :
      (raw : Text)
      → (validate parse_url string_of raw).valid ≡ true
      → HasCanonical (validate parse_url string_of raw)
  unfolding validate
  validate-HasCanonical raw valid =
      of_parsed-HasCanonical (trim_space raw) (parse_url (trim_space raw)) valid

  -- Where the YouTube validator finds an address valid, and `url.Parse` reads a canonical address of
  -- eleven identifier characters as it is written, the canonical address of the result is valid again,
  -- with the same identifier and itself as the canonical address.
  pub validate-canonical :
      (raw : Text)
      → ((id : Text) → is_video_id id ≡ true → parse_url (canonical_url id) ≡ some (watch_url id))
      → (validate parse_url string_of raw).valid ≡ true
      → validate parse_url string_of (validate parse_url string_of raw).canonical
        ≡ video (validate parse_url string_of raw).media_id
  validate-canonical raw reads valid =
      let id = (validate parse_url string_of raw).media_id in
      let known = validate-HasCanonical raw valid in
      ap (validate parse_url string_of) known.2
      ∙ validate-video id known.0 known.1 (reads id known.0)
