-- ===== src/Research/TooMany.antt =====
-- backend/internal/research/baseline.go: a baseline with more recommendations than a payload may have.
use open_music_player.Prelude.{
  ParsedUrl, ◌≡◌, refl, ap, Option, ℕ, suc, ◌<◌, ◌&&◌, not, arith, Bool, true, false, List, [], ◌∷◌,
  take, length, length-take, leb, Text, ℤ, ◌⊎◌, inl, trim_space, ◌==◌, ◌||◌, text_eq,
}
use open_music_player.Research.Types.{CandidateSnapshot, SourceQualitySnapshot, RevisionPayload}
use open_music_player.Research.SafeText.{safe_text, safe_required_text}
use open_music_player.Research.Payload.{
  RawJson, PayloadError, contract_invalid, contract_fits, validate_revision_payload, marshal,
  known_stage, is_baseline, revision_payload_schema_version,
}
use open_music_player.Research.Baseline.{
  Candidate, BaselineBuilderConfig, recommend, effective_limit, kept_candidates, providers,
  payload_refused, build, built, baseline_payload,
}

length-recommend : (rank : ℕ) (cs : List CandidateSnapshot) → length (recommend rank cs) ≡ length cs
length-recommend rank [] = refl
length-recommend rank (c ∷ cs) = ap suc (length-recommend (suc rank) cs)

long_unfit : (p : RevisionPayload) → 10 < length p.recommendations → contract_fits p ≡ false
unfolding contract_fits
long_unfit p long =
    without (text_eq p.schema_version revision_payload_schema_version) (known_stage p.stage)
      (safe_required_text p.query 512) (leb (length p.candidates) 25)
      (leb (length p.recommendations) 10) (is_baseline p.stage || not (length p.candidates == 0))
      (not (length p.candidates == 0) || length p.recommendations == 0) (ground arith)
  where
    without : (a b c d e f g : Bool) → e ≡ false → (a && b && c && d && e && f && g) ≡ false
    without a b c d e f g h = ground arith

module _ (parse_url : Text → Option ParsedUrl) (encode : RevisionPayload → RawJson) where
  long-marshal :
      (p : RevisionPayload)
      → 10 < length p.recommendations
      → marshal parse_url encode p ≡ inl contract_invalid
  unfolding marshal validate_revision_payload
  long-marshal p long = rw (marshal, long_unfit p long) refl

built-refused :
    (safe : Bool) (marshalled : PayloadError ⊎ RawJson) (id : Text)
    → safe ≡ true
    → marshalled ≡ inl contract_invalid
    → built safe marshalled id ≡ inl (payload_refused contract_invalid)
built-refused safe marshalled id s m = rw (s, m) refl

module _ (search : Text → List Text → ℕ → List Candidate)
    (evaluate_source_quality : Text → Candidate → SourceQualitySnapshot)
    (parse_url : Text → Option ParsedUrl) (encode : RevisionPayload → RawJson)
    (b : BaselineBuilderConfig) where
  -- Where the query is safe, the limit within the builder's own is above ten and more than ten candidates
  -- are kept of what the search finds for it, Build fails: the payload has more recommendations than its
  -- own validation allows.
  pub build_too_many :
      (text : Text) (requested : List Text) (limit elapsed : ℤ) (id : Text)
      → safe_text (trim_space text) 512 ≡ true
      → 10 < effective_limit b limit
      → 10
        < length (
            kept_candidates search evaluate_source_quality b
              (trim_space text)
              (providers b requested)
              (effective_limit b limit))
      → build search evaluate_source_quality parse_url encode b text requested limit elapsed id
        ≡ inl (payload_refused contract_invalid)
  unfolding build
  build_too_many text requested limit elapsed id safe large many =
      let kept =
        kept_candidates search evaluate_source_quality b (trim_space text) (providers b requested)
          (effective_limit b limit) in
      let many_recommended : 10 < length (recommend 1 (take (effective_limit b limit) kept)) =
        omega (
          arith,
          length-recommend 1 (take (effective_limit b limit) kept),
          length-take (effective_limit b limit) kept,
          large,
          many,
        ) in
      built-refused (safe_text (trim_space text) 512) _ id safe (
        long-marshal parse_url encode
          (baseline_payload (trim_space text) kept (effective_limit b limit) elapsed)
          many_recommended)
