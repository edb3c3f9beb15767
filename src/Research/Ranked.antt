-- ===== src/Research/Ranked.antt =====
-- backend/internal/research/protocol.go: the sorted candidates against the check of their order.
use open_music_player.Prelude.{
  ParsedUrl, ◌≡◌, ◌≢◌, refl, arith, Bool, true, false, Option, none, some, List, [], ◌∷◌,
  ltb_ℤ_asym, Text, inl, inr, Bool-cases,
}
use open_music_player.Research.Types.{CandidateSnapshot}
use open_music_player.Research.Ranking.{
  text_compare, compare_downloadable, compare_candidate_rank, is_after, insert_ranked,
  sort_candidate_snapshots,
}
use open_music_player.Research.Payload.{
  candidates_not_ranked, candidates_error, validate_candidate_snapshot, first_error,
  safe_text_error, warning_unsafe,
}

text_compare_asym :
    (s t : Text) → is_after (text_compare s t) ≡ true → is_after (text_compare t s) ≡ false
unfolding text_compare
text_compare_asym [] [] h = ground arith
text_compare_asym [] (d ∷ t) h = ground arith
text_compare_asym (c ∷ s) [] h = refl
text_compare_asym (c ∷ s) (d ∷ t) h = ground (arith, text_compare_asym s t)

compare_downloadable_asym :
    (x y : Bool) (s t : Text)
    → is_after (compare_downloadable x y (text_compare s t)) ≡ true
    → is_after (compare_downloadable y x (text_compare t s)) ≡ false
compare_downloadable_asym true true s t h = text_compare_asym s t h
compare_downloadable_asym true false s t h = ground arith
compare_downloadable_asym false true s t h = refl
compare_downloadable_asym false false s t h = text_compare_asym s t h

rank_asym :
    (a b : CandidateSnapshot)
    → is_after (compare_candidate_rank a b) ≡ true
    → is_after (compare_candidate_rank b a) ≡ false
unfolding compare_candidate_rank
rank_asym a b h = ground (
  arith,
  ltb_ℤ_asym a.source_quality.score b.source_quality.score,
  ltb_ℤ_asym b.source_quality.score a.source_quality.score,
  compare_downloadable_asym a.downloadable b.downloadable a.candidate_id b.candidate_id,
)

abbrev NotAfter : CandidateSnapshot → List CandidateSnapshot → Type 0
NotAfter b [] = Unit
NotAfter b (c ∷ cs) = is_after (compare_candidate_rank b c) ≡ false

abbrev Ranked : List CandidateSnapshot → Type 0
Ranked [] = Unit
Ranked (c ∷ cs) = NotAfter c cs × Ranked cs

insert_ranked-NotAfter :
    (b c : CandidateSnapshot) (cs : List CandidateSnapshot)
    → is_after (compare_candidate_rank b c) ≡ false
    → NotAfter b cs
    → NotAfter b (insert_ranked c cs)
insert_ranked-NotAfter b c [] h all = h
insert_ranked-NotAfter b c (d ∷ ds) h all =
    elim (Bool-cases (is_after (compare_candidate_rank c d))) [
      | inl later ↦ rw (later, insert_ranked) all
      | inr here ↦ rw (here, insert_ranked) h
    ]

insert_ranked-Ranked :
    (c : CandidateSnapshot) (cs : List CandidateSnapshot) → Ranked cs → Ranked (insert_ranked c cs)
insert_ranked-Ranked c [] r = (tt, tt)
insert_ranked-Ranked c (d ∷ ds) r = elim (Bool-cases (is_after (compare_candidate_rank c d))) [
  | inl later ↦
      rw (later, insert_ranked)
        (insert_ranked-NotAfter d c ds (rank_asym c d later) r.0, insert_ranked-Ranked c ds r.1)
  | inr here ↦ rw (here, insert_ranked) (here, r)
]

sort-Ranked : (cs : List CandidateSnapshot) → Ranked (sort_candidate_snapshots cs)
unfolding sort_candidate_snapshots
sort-Ranked [] = tt
sort-Ranked (c ∷ cs) = insert_ranked-Ranked c (sort_candidate_snapshots cs) (sort-Ranked cs)

warnings_error :
    (ws : List Text) → first_error (safe_text_error warning_unsafe) ws ≢ some candidates_not_ranked
warnings_error [] = ground arith
warnings_error (w ∷ ws) = ground (arith, warnings_error ws)

module _ (parse_url : Text → Option ParsedUrl) (allow_urls : Bool) where
  validate_candidate_error :
      (c : CandidateSnapshot)
      → validate_candidate_snapshot parse_url c allow_urls ≢ some candidates_not_ranked
  unfolding validate_candidate_snapshot
  validate_candidate_error c = ground (arith, warnings_error c.source_quality.warnings)

  abbrev Follows : Option CandidateSnapshot → List CandidateSnapshot → Type 0
  Follows none cs = Unit
  Follows (some b) cs = NotAfter b cs

  candidates_error_lem :
      (seen : List Text) (last : Option CandidateSnapshot) (cs : List CandidateSnapshot)
      → Follows last cs
      → Ranked cs
      → candidates_error parse_url allow_urls seen last cs ≢ some candidates_not_ranked
  unfolding candidates_error
  candidates_error_lem seen last [] f r = ground arith
  candidates_error_lem seen none (c ∷ cs) f r = ground (
    arith,
    validate_candidate_error c,
    candidates_error_lem (c.candidate_id ∷ seen) (some c) cs r.0 r.1,
  )
  candidates_error_lem seen (some b) (c ∷ cs) f r = ground (
    arith,
    f,
    validate_candidate_error c,
    candidates_error_lem (c.candidate_id ∷ seen) (some c) cs r.0 r.1,
  )

  -- The validation of candidates that SortCandidateSnapshots has sorted never finds them not ranked,
  -- whatever else it finds.
  pub sort-validate :
      (cs : List CandidateSnapshot)
      → candidates_error parse_url allow_urls [] none (sort_candidate_snapshots cs)
        ≢ some candidates_not_ranked
  sort-validate cs = candidates_error_lem [] none (sort_candidate_snapshots cs) tt (sort-Ranked cs)
