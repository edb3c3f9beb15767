-- ===== src/Research/Accepted.antt =====
-- backend/internal/research/protocol.go: what a payload has that ParseRevisionPayload accepts.
use open_music_player.Prelude.{
  ParsedUrl, ◌≡◌, ◌≢◌, refl, codes, text_eq_iff, ℕ, suc, arith, Bool, true, false, Option, none,
  some, List, [], ◌∷◌, any, map, All, text_eq, Text, ltb_ℤ, ℤ, pos, negsuc, ap, subst, not, ◌&&◌,
  leb, length, if◌then◌else◌, ltb, ◌==◌, ◌||◌, ◌*◌, inl, inr,
}
use open_music_player.Research.Types.{CandidateSnapshot, Recommendation, RevisionPayload}
use open_music_player.Research.SafeText.{canonical_provider_url, provider_url, safe_text}
use open_music_player.Research.Payload.{
  PayloadError, RawJson, candidates_error, validate_candidate_snapshot, parse_revision_payload,
  validate_revision_payload, recommendations_error, recommendation_fits, size_invalid,
}

abbrev Distinct : List CandidateSnapshot → Type 0
Distinct [] = Unit
Distinct (c ∷ cs) =
    All (λ (d : CandidateSnapshot). text_eq d.candidate_id c.candidate_id ≡ false) cs × Distinct cs

abbrev Fresh : List Text → List CandidateSnapshot → Type 0
Fresh seen = All (λ (c : CandidateSnapshot). any (text_eq c.candidate_id) seen ≡ false)

Fresh-tail :
    (x : Text) (seen : List Text) (cs : List CandidateSnapshot)
    → Fresh (x ∷ seen) cs
    → Fresh seen cs
Fresh-tail x seen [] f = tt
Fresh-tail x seen (c ∷ cs) f = (ground (arith, f.0), Fresh-tail x seen cs f.1)

Fresh-head :
    (x : Text) (seen : List Text) (cs : List CandidateSnapshot)
    → Fresh (x ∷ seen) cs
    → All (λ (c : CandidateSnapshot). text_eq c.candidate_id x ≡ false) cs
Fresh-head x seen [] f = tt
Fresh-head x seen (c ∷ cs) f = (ground (arith, f.0), Fresh-head x seen cs f.1)

ℤ_equal : (a : ℤ) (n : ℕ) → ltb_ℤ a (pos n) ≡ false → ltb_ℤ (pos n) a ≡ false → a ≡ pos n
ℤ_equal (pos m) n below above = ap pos (ground arith)
ℤ_equal (negsuc m) n below above = ground arith

-- The recommendations have the ranks from `rank` on and name candidates.
abbrev Recommended : List Text → ℕ → List Recommendation → Type 0
Recommended ids rank [] = Unit
Recommended ids rank (r ∷ rs) =
    ((r.rank ≡ pos rank) × (any (text_eq r.candidate_id) ids ≡ true))
    × Recommended ids (suc rank) rs

-- The address is read as one of `https`, with a host and without a user or a fragment, and is a canonical
-- one of the provider.
abbrev pub IsAddress : Text → Option ParsedUrl → Type 0
IsAddress provider parsed =
    (url : ParsedUrl) × (parsed ≡ some url)
    × (url.scheme ≡ codes "https")
    × (url.has_user ≡ false)
    × (url.fragment ≡ [])
    × (url.host ≢ [])
    × (canonical_provider_url provider parsed ≡ true)

canonical_parts :
    (a b c d e : Bool)
    → a && not b && c && not d && e ≡ true
    → (a ≡ true) × (b ≡ false) × (c ≡ true) × (d ≡ false)
canonical_parts a b c d e h = (ground arith, ground arith, ground arith, ground arith)

canonical-IsAddress :
    (provider : Text) (parsed : Option ParsedUrl)
    → canonical_provider_url provider parsed ≡ true
    → IsAddress provider parsed
canonical-IsAddress provider none h = absurd (unfold canonical_provider_url in cc h)
canonical-IsAddress provider (some url) h =
    let (https, user, fragment, host) =
      canonical_parts (text_eq url.scheme (codes "https")) url.has_user (text_eq url.fragment [])
        (text_eq url.host []) (provider_url provider url) (unfold canonical_provider_url in h) in
    (
      url,
      refl,
      (text_eq_iff url.scheme (codes "https")).0 https,
      user,
      (text_eq_iff url.fragment []).0 fragment,
      (λ e. cc (host, (text_eq_iff url.host []).1 e)),
      h,
    )

module _ (parse_url : Text → Option ParsedUrl) where
  abbrev Addressed : List CandidateSnapshot → Type 0
  Addressed = All (λ (c : CandidateSnapshot). IsAddress c.provider (parse_url c.source_url))

  validated-canonical :
      (c : CandidateSnapshot)
      → validate_candidate_snapshot parse_url c true ≡ none
      → canonical_provider_url c.provider (parse_url c.source_url) ≡ true
  unfolding validate_candidate_snapshot
  validated-canonical c h = ground arith

  candidates_error-next :
      (seen : List Text) (last : Option CandidateSnapshot) (c : CandidateSnapshot)
      (cs : List CandidateSnapshot)
      → candidates_error parse_url true seen last (c ∷ cs) ≡ none
      → (any (text_eq c.candidate_id) seen ≡ false)
        × IsAddress c.provider (parse_url c.source_url)
        × (candidates_error parse_url true (c.candidate_id ∷ seen) (some c) cs ≡ none)
  unfolding candidates_error
  candidates_error-next seen last c cs h = (
    ground arith,
    canonical-IsAddress c.provider (parse_url c.source_url) (validated-canonical c (ground arith)),
    ground arith,
  )

  candidates_error-Fresh :
      (seen : List Text) (last : Option CandidateSnapshot) (cs : List CandidateSnapshot)
      → candidates_error parse_url true seen last cs ≡ none
      → Fresh seen cs × Distinct cs × Addressed cs
  candidates_error-Fresh seen last [] h = (tt, tt, tt)
  candidates_error-Fresh seen last (c ∷ cs) h =
      let next = candidates_error-next seen last c cs h in
      let rest = candidates_error-Fresh (c.candidate_id ∷ seen) (some c) cs next.2 in
      (
        (next.0, Fresh-tail c.candidate_id seen cs rest.0),
        (Fresh-head c.candidate_id seen cs rest.0, rest.1),
        (next.1, rest.2),
      )

fits_parts :
    (a b c d e f g h : Bool)
    → not a && not b && c && d && e && f && g && h ≡ true
    → (a ≡ false) × (b ≡ false) × (f ≡ true)
fits_parts a b c d e f g h all = (ground arith, ground arith, ground arith)

fits-Recommended :
    (ids : List Text) (rank : ℕ) (r : Recommendation)
    → recommendation_fits ids rank r ≡ true
    → (r.rank ≡ pos rank) × (any (text_eq r.candidate_id) ids ≡ true)
unfolding recommendation_fits
fits-Recommended ids rank r fits =
    let parts =
      fits_parts (ltb_ℤ r.rank (pos rank)) (ltb_ℤ (pos rank) r.rank) r.confidence_fits
        (safe_text r.rationale 240) (safe_text r.classification 64)
        (any (text_eq r.candidate_id) ids) (leb (length r.warnings) 12)
        (leb (length r.evidence_refs) 8) fits in
    (ℤ_equal r.rank rank parts.0 parts.1, parts.2)

recommendations_error-Recommended :
    (ids : List Text) (rank : ℕ) (rs : List Recommendation)
    → recommendations_error ids rank rs ≡ none
    → Recommended ids rank rs
unfolding recommendations_error
recommendations_error-Recommended ids rank [] h = tt
recommendations_error-Recommended ids rank (r ∷ rs) h = (
  fits-Recommended ids rank r (ground arith),
  recommendations_error-Recommended ids (suc rank) rs (ground arith),
)

accepted_parts {ℓ} :
    {A : Type ℓ} (refused : Bool) (v : Option PayloadError) (q p : A)
    → (if refused then inl size_invalid else elim v [ some e ↦ inl e | none ↦ inr q ]) ≡ inr p
    → (v ≡ none) × (q ≡ p)
accepted_parts true v q p h = ground arith
accepted_parts false none q p h = (refl, ground arith)
accepted_parts false (some e) q p h = ground arith

module _ (parse_url : Text → Option ParsedUrl) where
  abbrev pub Accepted : RevisionPayload → Type 0
  Accepted p =
      Distinct p.candidates
      × Addressed parse_url p.candidates
      × Recommended (map (λ c. c.candidate_id) p.candidates) 1 p.recommendations

  validate-Accepted :
      (p : RevisionPayload) → validate_revision_payload parse_url p true ≡ none → Accepted p
  unfolding validate_revision_payload
  validate-Accepted p h =
      let cs = candidates_error-Fresh parse_url [] none p.candidates (ground arith) in
      (
        cs.1,
        cs.2,
        recommendations_error-Recommended (map (λ c. c.candidate_id) p.candidates) 1
            p.recommendations (ground arith),
      )

  parse-cases :
      (size : ℕ) (decoded : Option RevisionPayload) (p : RevisionPayload)
      → parse_revision_payload parse_url (record { size = size; decoded = decoded }) ≡ inr p
      → Accepted p
  unfolding parse_revision_payload
  parse-cases size none p h = ground arith
  parse-cases size (some q) p h =
      let parts =
        accepted_parts (size == 0 || ltb (64 * 1024) size)
          (validate_revision_payload parse_url q true) q p h in
      subst Accepted parts.1 (validate-Accepted q parts.0)

  -- A payload that ParseRevisionPayload returns has no identifier for two candidates, each candidate's
  -- address has the scheme https, a host, no user and no fragment and is a canonical one of its provider,
  -- and its recommendations have the ranks from 1 on and name candidates of the payload.
  pub parse_revision_payload-Accepted :
      (raw : RawJson) (p : RevisionPayload)
      → parse_revision_payload parse_url raw ≡ inr p
      → Accepted p
  parse_revision_payload-Accepted raw p h = parse-cases raw.size raw.decoded p h
