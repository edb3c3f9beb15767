-- ===== src/Validators/Tests.antt =====
-- Runs of the validators of backend/internal/validators.
use open_music_player.Prelude.{
  ◌≡◌, refl, true, false, Option, some, [], Text, codes, drop, ParsedUrl, if◌then◌else◌, text_eq,
  take,
}
use open_music_player.Validators.Youtube.{canonical_url, is_video_id, validate}
use open_music_player.Validators.Canonical.{watch_url, video, validate-canonical}

-- What `url.Parse` makes of `youtu.be/dQw4w9WgXcQ` behind a scheme, and of a canonical address.
abbrev read_url : Text → Option ParsedUrl
read_url s =
    if text_eq (take 9 s) (codes "https://w") then some (watch_url (drop 32 s)) else some short
  where
    short : ParsedUrl
    short = record {
      scheme = codes "https";
      has_user = false;
      fragment = [];
      host = codes "youtu.be";
      hostname = codes "youtu.be";
      path = codes "/dQw4w9WgXcQ";
      query_get = λ name. [];
    }

reads : (id : Text) → is_video_id id ≡ true → read_url (canonical_url id) ≡ some (watch_url id)
unfolding text_eq
reads id fits = refl

short_valid : (validate read_url (λ url. []) (codes "https://youtu.be/dQw4w9WgXcQ")).valid ≡ true
unfolding validate
short_valid = refl

validate-canonical_example :
    validate read_url
      (λ url. [])
      (validate read_url (λ url. []) (codes "https://youtu.be/dQw4w9WgXcQ")).canonical
    ≡ video (validate read_url (λ url. []) (codes "https://youtu.be/dQw4w9WgXcQ")).media_id
validate-canonical_example =
    validate-canonical read_url (λ url. []) (codes "https://youtu.be/dQw4w9WgXcQ") reads short_valid

canonical :
    (validate read_url (λ url. []) (codes "https://youtu.be/dQw4w9WgXcQ")).canonical
    ≡ codes "https://www.youtube.com/watch?v=dQw4w9WgXcQ"
unfolding validate
canonical = refl
