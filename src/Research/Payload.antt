-- ===== src/Research/Payload.antt =====
-- backend/internal/research/protocol.go: the validation of a revision and the projection for
-- the worker.
-- `url.Parse` is a parameter.
use open_music_player.Prelude.{
  ParsedUrl, ℕ, suc, ◌*◌, Bool, true, false, not, ◌&&◌, ◌||◌, Option, none, some, List, [], ◌∷◌,
  ◌++◌, map, ◌⊎◌, inl, inr, if◌then◌else◌, ltb, leb, ◌==◌, any, length, Text, codes, text_eq, ℤ,
  pos, ltb_ℤ,
}
use open_music_player.Research.Types.{
  RevisionStage, stage_baseline, stage_direct_judge, stage_deep_agent, unknown_stage,
  CandidateSnapshot, Recommendation, Provenance, SafeTiming, RevisionPayload,
}
use open_music_player.Research.SafeText.{
  safe_text, safe_required_text, safe_required_id, safe_optional_id, allowed_provider,
  canonical_provider_url,
}
use open_music_player.Research.Ranking.{
  known_source_quality_classification, known_source_quality_recommendation, compare_candidate_rank,
  is_after,
}

abbrev pub revision_payload_schema_version : Text
revision_payload_schema_version = codes "omp.research.revision.v1"

pub data PayloadError : Type 0 where
  contract_invalid duplicate_candidate candidates_not_ranked recommendation_invalid : PayloadError
  recommendation_unsafe provenance_invalid candidate_invalid source_url_invalid : PayloadError
  worker_url_leak warning_unsafe size_invalid schema_invalid : PayloadError

abbrev pub known_stage : RevisionStage → Bool
known_stage stage_baseline = true
known_stage stage_direct_judge = true
known_stage stage_deep_agent = true
known_stage (unknown_stage s) = false

abbrev pub is_baseline : RevisionStage → Bool
is_baseline stage_baseline = true
is_baseline _ = false

-- The first error of a list of checks, in their order.
abbrev pub first_error {ℓ κ} : {A : Type ℓ} {E : Type κ} → (A → Option E) → List A → Option E
first_error check [] = none
first_error check (x ∷ xs) = elim (check x) [ some e ↦ some e | none ↦ first_error check xs ]

abbrev pub refuse_unless {ℓ} : {E : Type ℓ} → Bool → E → Option E → Option E
refuse_unless true e next = next
refuse_unless false e next = some e

unfoldable pub candidate_fields_fit : CandidateSnapshot → Bool
unfolding safe_required_id allowed_provider safe_optional_id safe_required_text safe_text
    known_source_quality_classification known_source_quality_recommendation
candidate_fields_fit c =
    let q = c.source_quality in
    safe_required_id c.candidate_id
    && allowed_provider c.provider
    && safe_optional_id c.source_id
    && safe_required_text c.title 240
    && safe_text c.artist 180
    && safe_text c.uploader 180
    && not (ltb_ℤ c.duration_ms (pos 0))
    && not (ltb_ℤ (pos 86400000) c.duration_ms)
    && not (ltb_ℤ q.score (pos 0))
    && not (ltb_ℤ (pos 100) q.score)
    && known_source_quality_classification q.classification
    && known_source_quality_recommendation q.recommendation
    && q.confidence_fits

abbrev pub safe_text_error {ℓ} : {E : Type ℓ} → E → Text → Option E
safe_text_error e s = refuse_unless (safe_text s 128) e none

unfoldable pub recommendation_fits : List Text → ℕ → Recommendation → Bool
unfolding safe_text text_eq
recommendation_fits ids rank r =
    not (ltb_ℤ r.rank (pos rank))
    && not (ltb_ℤ (pos rank) r.rank)
    && r.confidence_fits
    && safe_text r.rationale 240
    && safe_text r.classification 64
    && any (text_eq r.candidate_id) ids
    && leb (length r.warnings) 12
    && leb (length r.evidence_refs) 8

-- The loop over the recommendations, the next of which has to have the rank.
unfoldable pub recommendations_error : List Text → ℕ → List Recommendation → Option PayloadError
unfolding recommendation_fits safe_text
recommendations_error ids rank [] = none
recommendations_error ids rank (r ∷ rs) =
    let rest = recommendations_error ids (suc rank) rs in
    refuse_unless (recommendation_fits ids rank r) recommendation_invalid
      (elim (first_error (safe_text_error recommendation_unsafe) (r.warnings ++ r.evidence_refs)) [
        | some e ↦ some e
        | none ↦ rest
      ])

unfoldable pub provenance_fits : Provenance → SafeTiming → Bool
unfolding safe_text
provenance_fits p t =
    safe_text p.source 128
    && safe_text p.worker_schema_version 128
    && not (ltb_ℤ p.spawn_to_first_revision_ms (pos 0))
    && not (ltb_ℤ p.spawn_to_final_ms (pos 0))
    && not (ltb_ℤ t.baseline_build_ms (pos 0))
    && not (ltb_ℤ t.worker_startup_ms (pos 0))
    && not (ltb_ℤ t.worker_inference_ms (pos 0))

unfoldable pub contract_fits : RevisionPayload → Bool
unfolding text_eq safe_required_text
contract_fits p =
    let empty = length p.candidates == 0 in
    text_eq p.schema_version revision_payload_schema_version
    && known_stage p.stage
    && safe_required_text p.query 512
    && leb (length p.candidates) 25
    && leb (length p.recommendations) 10
    && (is_baseline p.stage || not empty)
    && (not empty || length p.recommendations == 0)

-- `last` is the candidate before.
abbrev pub comes_too_late : Option CandidateSnapshot → CandidateSnapshot → Bool
comes_too_late none c = false
comes_too_late (some b) c = is_after (compare_candidate_rank b c)

module _ (parse_url : Text → Option ParsedUrl) where
  unfoldable pub validate_candidate_snapshot : CandidateSnapshot → Bool → Option PayloadError
  unfolding candidate_fields_fit canonical_provider_url text_eq safe_text
  validate_candidate_snapshot c allow_urls =
      let warnings = first_error (safe_text_error warning_unsafe) c.source_quality.warnings in
      refuse_unless (candidate_fields_fit c) candidate_invalid (
        if allow_urls
        then refuse_unless (canonical_provider_url c.provider (parse_url c.source_url))
            source_url_invalid warnings
        else refuse_unless (text_eq c.source_url []) worker_url_leak warnings)

  -- The loop over the candidates; `seen` are the identifiers before and `last` the candidate before.
  unfoldable pub candidates_error :
      Bool → List Text → Option CandidateSnapshot → List CandidateSnapshot → Option PayloadError
  unfolding validate_candidate_snapshot compare_candidate_rank text_eq
  candidates_error allow_urls seen last [] = none
  candidates_error allow_urls seen last (c ∷ cs) = elim (validate_candidate_snapshot c allow_urls) [
    | some e ↦ some e
    | none ↦ refuse_unless (not (any (text_eq c.candidate_id) seen)) duplicate_candidate (
        refuse_unless (not (comes_too_late last c)) candidates_not_ranked
          (candidates_error allow_urls (c.candidate_id ∷ seen) (some c) cs))
  ]

  unfoldable pub validate_revision_payload : RevisionPayload → Bool → Option PayloadError
  unfolding contract_fits candidates_error recommendations_error provenance_fits
  validate_revision_payload p allow_urls =
      refuse_unless (contract_fits p) contract_invalid
        (elim (candidates_error allow_urls [] none p.candidates) [
          | some e ↦ some e
          | none ↦
              elim (recommendations_error (map (λ c. c.candidate_id) p.candidates) 1
                p.recommendations) [
                  | some e ↦ some e
                  | none ↦
                      refuse_unless (provenance_fits p.provenance p.timing) provenance_invalid none
                ]
        ])

-- A JSON text: its bytes, and what a strict decoder reads from it.
pub record RawJson : Type 0 where
  pub size : ℕ
  pub decoded : Option RevisionPayload

-- `RevisionPayload.Marshal`, with the encoder.
unfoldable pub marshal :
    (Text → Option ParsedUrl)
    → (RevisionPayload → RawJson)
    → RevisionPayload
    → PayloadError ⊎ RawJson
unfolding validate_revision_payload
marshal parse_url encode p = elim (validate_revision_payload parse_url p true) [
  | some e ↦ inl e
  | none ↦ inr (encode p)
]

unfoldable pub parse_revision_payload :
    (Text → Option ParsedUrl) → RawJson → PayloadError ⊎ RevisionPayload
unfolding validate_revision_payload
parse_revision_payload parse_url raw =
    if raw.size == 0 || ltb (64 * 1024) raw.size then inl size_invalid else elim raw.decoded [
      | none ↦ inl schema_invalid
      | some p ↦ elim (validate_revision_payload parse_url p true) [ some e ↦ inl e | none ↦ inr p ]
    ]

pub record WorkerSourceQualityProjection : Type 0 where
  pub score : ℤ
  pub classification : Text
  pub warnings : List Text

pub record WorkerCandidateProjection : Type 0 where
  pub candidate_id : Text
  pub provider : Text
  pub source_id : Text
  pub title : Text
  pub artist : Text
  pub uploader : Text
  pub duration_ms : ℤ
  pub downloadable : Bool
  pub playable : Bool
  pub explicit : Option Bool
  pub source_quality : WorkerSourceQualityProjection

abbrev pub project_candidate : CandidateSnapshot → WorkerCandidateProjection
project_candidate c = record {
  candidate_id = c.candidate_id;
  provider = c.provider;
  source_id = c.source_id;
  title = c.title;
  artist = c.artist;
  uploader = c.uploader;
  duration_ms = c.duration_ms;
  downloadable = c.downloadable;
  playable = c.playable;
  explicit = c.explicit;
  source_quality = record {
    score = c.source_quality.score;
    classification = c.source_quality.classification;
    warnings = c.source_quality.warnings;
  };
}

-- `inl` is the error of the first candidate that is refused.
unfoldable pub worker_projection :
    (Text → Option ParsedUrl)
    → List CandidateSnapshot
    → PayloadError ⊎ List WorkerCandidateProjection
unfolding validate_candidate_snapshot
worker_projection parse_url cs =
    elim (first_error (λ c. validate_candidate_snapshot parse_url c true) cs) [
      | some e ↦ inl e
      | none ↦ inr (map project_candidate cs)
    ]
