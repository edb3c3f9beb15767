-- ===== src/Research/PayloadTests.antt =====
-- Runs of the payload checks and of the baseline of backend/internal/research.
use open_music_player.Prelude.{
  ParsedUrl, ◌≡◌, ◌≢◌, refl, ℕ, arith, true, false, Option, none, some, List, [], ◌∷◌, Text, codes,
  pos, inl, inr, map, trim_space, text_eq, if◌then◌else◌,
}
use open_music_player.Research.Types.{CandidateSnapshot, SourceQualitySnapshot, RevisionPayload}
use open_music_player.Research.SafeText.{safe_text, canonical_provider_url}
use open_music_player.Research.Ranking.{sort_candidate_snapshots}
use open_music_player.Research.Payload.{
  RawJson, candidates_error, candidates_not_ranked, contract_invalid, parse_revision_payload,
}
use open_music_player.Research.Ranked.{sort-validate}
use open_music_player.Research.Accepted.{Accepted, parse_revision_payload-Accepted}
use open_music_player.Research.Baseline.{
  Candidate, BaselineBuilderConfig, new_baseline_builder, build, payload_refused, kept_candidates,
  providers,
}
use open_music_player.Research.TooMany.{build_too_many}
use open_music_player.Research.Repository.Samples.{candidate, baseline}

-- What `url.Parse` makes of `https://youtu.be/c1`.
abbrev read_url : Text → Option ParsedUrl
read_url s = some (record {
  scheme = codes "https";
  has_user = false;
  fragment = [];
  host = codes "youtu.be";
  hostname = codes "youtu.be";
  path = codes "/c1";
  query_get = λ name. [];
})

abbrev better : CandidateSnapshot
better = record candidate { candidate_id = codes "c0" }

-- `https://` is found, `www.` and `Bearer` are not.
address_unsafe : safe_text (codes "see HTTPS://a.b") 240 ≡ false
unfolding safe_text
address_unsafe = refl

www_safe : safe_text (codes "www.example.com") 240 ≡ true
unfolding safe_text
www_safe = refl

bearer_safe : safe_text (codes "Bearer abc") 240 ≡ true
unfolding safe_text
bearer_safe = refl

short_address : canonical_provider_url (codes "youtube") (read_url []) ≡ true
unfolding canonical_provider_url
short_address = refl

other_provider : canonical_provider_url (codes "soundcloud") (read_url []) ≡ false
unfolding canonical_provider_url
other_provider = refl

sort-validate_example :
    candidates_error read_url true [] none (sort_candidate_snapshots (candidate ∷ better ∷ []))
    ≢ some candidates_not_ranked
sort-validate_example = sort-validate read_url true (candidate ∷ better ∷ [])

unsorted :
    candidates_error read_url true [] none (candidate ∷ better ∷ []) ≡ some candidates_not_ranked
unfolding candidates_error
unsorted = refl

abbrev baseline_json : RawJson
baseline_json = record { size = 1000; decoded = some baseline }

baseline_accepted : parse_revision_payload read_url baseline_json ≡ inr baseline
unfolding parse_revision_payload
baseline_accepted = refl

parse_revision_payload-Accepted_example : Accepted read_url baseline
parse_revision_payload-Accepted_example =
    parse_revision_payload-Accepted read_url baseline_json baseline baseline_accepted

abbrev found : Text → Candidate
found id = record {
  candidate_id = id;
  provider = codes "youtube";
  source_id = [];
  source_url = codes "https://youtu.be/c1";
  title = codes "a song";
  artist = [];
  uploader = [];
  duration_ms = pos 200000;
  downloadable = true;
  playable = true;
  explicit = none;
}

abbrev eleven : Text → List Text → ℕ → List Candidate
eleven query selected limit =
    map (λ c. found (c ∷ []))
      (b'a' ∷ b'b' ∷ b'c' ∷ b'd' ∷ b'e' ∷ b'f' ∷ b'g' ∷ b'h' ∷ b'i' ∷ b'j' ∷ b'k' ∷ [])

abbrev rated : Text → Candidate → SourceQualitySnapshot
rated query c = candidate.source_quality

abbrev encoded : RevisionPayload → RawJson
encoded p = record { size = 1000; decoded = some p }

abbrev builder : BaselineBuilderConfig
builder = new_baseline_builder [] (pos 0) (pos 0)

query_safe : safe_text (trim_space (codes "a song")) 512 ≡ true
unfolding safe_text trim_space
query_safe = refl

build_too_many_example :
    build eleven rated read_url encoded builder (codes "a song") [] (pos 25) (pos 3) (codes "r1")
    ≡ inl (payload_refused contract_invalid)
unfolding kept_candidates providers trim_space
build_too_many_example =
    build_too_many eleven rated read_url encoded builder (codes "a song") [] (pos 25) (pos 3)
      (codes "r1") query_safe (omega arith) (omega arith)

-- The provider that is listed first comes first, although its candidate has the greater identifier.
abbrev from_two : Text → List Text → ℕ → List Candidate
from_two query selected limit =
    record (found (codes "a")) {
      provider = codes "soundcloud";
      source_url = codes "https://soundcloud.com/x/y";
    }
    ∷ found (codes "b")
    ∷ []

abbrev read_either : Text → Option ParsedUrl
read_either s = if text_eq s (codes "https://soundcloud.com/x/y") then sound else read_url s
  where
    sound : Option ParsedUrl
    sound = some (record {
      scheme = codes "https";
      has_user = false;
      fragment = [];
      host = codes "soundcloud.com";
      hostname = codes "soundcloud.com";
      path = codes "/x/y";
      query_get = λ name. [];
    })

providers_out_of_order :
    build from_two rated read_either encoded builder
      (codes "a song")
      []
      (pos 5)
      (pos 3)
      (codes "r1")
    ≡ inl (payload_refused candidates_not_ranked)
unfolding build
providers_out_of_order = refl
