-- ===== src/Research/Baseline.antt =====
-- backend/internal/research/baseline.go: the deterministic baseline of a research request. The search, the
-- rating of a source, `url.Parse`, the JSON encoder, the clock and the new identifier are parameters.
use open_music_player.Prelude.{
  ParsedUrl, ℕ, zero, suc, Bool, true, false, not, ◌&&◌, ◌||◌, Option, List, [], ◌∷◌, ◌++◌, map,
  keep, if◌then◌else◌, ltb, leb, ◌==◌, any, take, Text, codes, text_eq, ℤ, pos, negsuc, ltb_ℤ,
  trim_space, trim_left, is_space, ◌⊎◌, inl, inr,
}
use open_music_player.Research.Types.{
  stage_baseline, SourceQualitySnapshot, CandidateSnapshot, Recommendation, RevisionPayload,
}
use open_music_player.Research.SafeText.{safe_text, allowed_provider}
use open_music_player.Research.Ranking.{recommendation_order, text_compare, is_before}
use open_music_player.Research.Payload.{
  PayloadError, RawJson, marshal, revision_payload_schema_version,
}

-- Of `discovery.Candidate`, without the address of its picture and the metadata of its provider.
pub record Candidate : Type 0 where
  pub candidate_id : Text
  pub provider : Text
  pub source_id : Text
  pub source_url : Text
  pub title : Text
  pub artist : Text
  pub uploader : Text
  pub duration_ms : ℤ
  pub downloadable : Bool
  pub playable : Bool
  pub explicit : Option Bool

abbrev pub snapshot_candidate : Candidate → SourceQualitySnapshot → CandidateSnapshot
snapshot_candidate c q = record {
  candidate_id = c.candidate_id;
  provider = c.provider;
  source_id = c.source_id;
  source_url = c.source_url;
  title = c.title;
  artist = c.artist;
  uploader = c.uploader;
  duration_ms = c.duration_ms;
  downloadable = c.downloadable;
  playable = c.playable;
  explicit = c.explicit;
  source_quality = q;
}

pub record BaselineBuilderConfig : Type 0 where
  pub providers : List Text
  pub max_providers : ℕ
  pub max_candidates : ℕ

-- `n <= 0 || n > most` gives `most`.
abbrev pub bounded : ℕ → ℤ → ℕ
bounded most (negsuc n) = most
bounded most (pos n) = if leb n 0 || ltb most n then most else n

-- NewBaselineBuilder, given a search.
abbrev pub new_baseline_builder : List Text → ℤ → ℤ → BaselineBuilderConfig
new_baseline_builder providers max_providers max_candidates = record {
  providers = providers;
  max_providers = bounded 2 max_providers;
  max_candidates = bounded 25 max_candidates;
}

-- The loop of `providers`: the allowed ones that were not seen, up to `room` more.
unfoldable pub select_providers : ℕ → List Text → List Text → List Text
unfolding allowed_provider text_eq
select_providers room seen [] = []
select_providers zero seen (p ∷ ps) = []
select_providers (suc room) seen (p ∷ ps) =
    let chosen = select_providers room (p ∷ seen) ps in
    let rest = select_providers (suc room) seen ps in
    if not (allowed_provider p) || any (text_eq p) seen then rest else p ∷ chosen

unfoldable pub providers : BaselineBuilderConfig → List Text → List Text
unfolding select_providers
providers b requested = elim (select_providers b.max_providers [] (requested ++ b.providers)) [
  | [] ↦
      if b.max_providers == 1
      then codes "youtube" ∷ []
      else codes "youtube" ∷ codes "soundcloud" ∷ []
  | p ∷ ps ↦ p ∷ ps
]

-- `positions`, asked only of the providers it has.
unfoldable pub position : Text → List Text → ℕ
unfolding text_eq
position p [] = 0
position p (q ∷ qs) = if text_eq p q then 0 else suc (position p qs)

unfoldable pub baseline_before : List Text → CandidateSnapshot → CandidateSnapshot → Bool
unfolding recommendation_order text_compare position
baseline_before selected a c =
    let s = a.source_quality.score in
    let t = c.source_quality.score in
    let p = recommendation_order a.source_quality.recommendation in
    let q = recommendation_order c.source_quality.recommendation in
    let i = position a.provider selected in
    let j = position c.provider selected in
    if ltb_ℤ t s || ltb_ℤ s t
    then ltb_ℤ t s
    else if not (p == q)
    then ltb q p
    else if (a.downloadable && not c.downloadable) || (not a.downloadable && c.downloadable)
    then a.downloadable
    else if not (i == j)
    then ltb i j
    else is_before (text_compare a.candidate_id c.candidate_id)

-- A candidate put before the first that does not come before it.
abbrev pub insert_baseline :
    List Text → CandidateSnapshot → List CandidateSnapshot → List CandidateSnapshot
insert_baseline selected c [] = c ∷ []
insert_baseline selected c (d ∷ ds) =
    let rest = insert_baseline selected c ds in
    elim (baseline_before selected d c) [ true ↦ d ∷ rest | false ↦ c ∷ d ∷ ds ]

unfoldable pub sort_baseline : List Text → List CandidateSnapshot → List CandidateSnapshot
unfolding baseline_before
sort_baseline selected [] = []
sort_baseline selected (c ∷ cs) = insert_baseline selected c (sort_baseline selected cs)

abbrev pub recommend : ℕ → List CandidateSnapshot → List Recommendation
recommend rank [] = []
recommend rank (c ∷ cs) =
    record {
      candidate_id = c.candidate_id;
      rank = pos rank;
      confidence_fits = c.source_quality.confidence_fits;
      rationale = [];
      classification = c.source_quality.classification;
      warnings = c.source_quality.warnings;
      evidence_refs = c.candidate_id ∷ [];
    }
    ∷ recommend (suc rank) cs

-- The limit of a request within that of the builder.
abbrev pub effective_limit : BaselineBuilderConfig → ℤ → ℕ
effective_limit b (negsuc n) = b.max_candidates
effective_limit b (pos n) = if ltb n 1 || ltb b.max_candidates n then b.max_candidates else n

pub data BuildError : Type 0 where
  query_invalid : BuildError
  payload_refused : PayloadError → BuildError

-- The payload of the candidates, of which the first `most` are recommended.
abbrev pub baseline_payload : Text → List CandidateSnapshot → ℕ → ℤ → RevisionPayload
baseline_payload query candidates most elapsed = record {
  schema_version = revision_payload_schema_version;
  stage = stage_baseline;
  query = query;
  candidates = candidates;
  recommendations = recommend 1 (take most candidates);
  provenance = record {
    source = codes "deterministic_discovery_v1";
    worker_schema_version = [];
    spawn_to_first_revision_ms = pos 0;
    spawn_to_final_ms = pos 0;
  };
  timing = record {
    baseline_build_ms = elapsed;
    worker_startup_ms = pos 0;
    worker_inference_ms = pos 0;
  };
}

abbrev pub built : Bool → PayloadError ⊎ RawJson → Text → BuildError ⊎ (Text × RawJson)
built false marshalled id = inl query_invalid
built true (inl e) id = inl (payload_refused e)
built true (inr raw) id = inr (id, raw)

module _ (search : Text → List Text → ℕ → List Candidate)
    (evaluate_source_quality : Text → Candidate → SourceQualitySnapshot) where
  unfoldable pub kept_candidates :
      BaselineBuilderConfig → Text → List Text → ℕ → List CandidateSnapshot
  unfolding sort_baseline allowed_provider text_eq
  kept_candidates b query selected limit =
      let wanted : Candidate → Bool =
        λ c. any (text_eq c.provider) selected && allowed_provider c.provider in
      let found = keep wanted (search query selected limit) in
      take b.max_candidates (
        sort_baseline selected
          (map (λ c. snapshot_candidate c (evaluate_source_quality query c)) found))

module _ (search : Text → List Text → ℕ → List Candidate)
    (evaluate_source_quality : Text → Candidate → SourceQualitySnapshot)
    (parse_url : Text → Option ParsedUrl) (encode : RevisionPayload → RawJson) where
  -- `elapsed` is the milliseconds that the search and the rating took, `id` the new identifier.
  unfoldable pub build :
      BaselineBuilderConfig → Text → List Text → ℤ → ℤ → Text → BuildError ⊎ (Text × RawJson)
  unfolding trim_space trim_left is_space safe_text providers kept_candidates marshal
  build b text requested limit elapsed id =
      let query = trim_space text in
      let selected = providers b requested in
      let most = effective_limit b limit in
      let candidates = kept_candidates search evaluate_source_quality b query selected most in
      built (safe_text query 512)
        (marshal parse_url encode (baseline_payload query candidates most elapsed)) id
