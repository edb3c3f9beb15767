-- ===== src/Research/Ranking.antt =====
-- backend/internal/research/protocol.go: the order of the candidates. Of the result of
-- `compareCandidateRank` only the sign is asked; its scores are those of EvaluateSourceQuality, or were
-- found to lie between 0 and 100 before.
use open_music_player.Prelude.{
  ℕ, Bool, true, false, ◌||◌, List, [], ◌∷◌, if◌then◌else◌, ltb, any, Text, codes, text_eq, ltb_ℤ,
}
use open_music_player.Research.Types.{CandidateSnapshot}

unfoldable pub recommendation_order : Text → ℕ
unfolding text_eq
recommendation_order s =
    if text_eq s (codes "preferred")
    then 4
    else if text_eq s (codes "acceptable")
    then 3
    else if text_eq s (codes "review")
    then 2
    else if text_eq s (codes "avoid")
    then 1
    else 0

unfoldable pub known_source_quality_recommendation : Text → Bool
unfolding recommendation_order
known_source_quality_recommendation s =
    text_eq s (codes "preferred")
    || text_eq s (codes "acceptable")
    || text_eq s (codes "review")
    || text_eq s (codes "avoid")

abbrev pub source_quality_classifications : List Text
source_quality_classifications =
    codes "official_audio"
    ∷ codes "topic_audio"
    ∷ codes "artist_upload"
    ∷ codes "music_video"
    ∷ codes "visualizer"
    ∷ codes "live"
    ∷ codes "lyric_video"
    ∷ codes "interview"
    ∷ codes "cover"
    ∷ codes "remix"
    ∷ codes "altered_audio"
    ∷ codes "direct_url"
    ∷ codes "unknown"
    ∷ []

unfoldable pub known_source_quality_classification : Text → Bool
unfolding text_eq
known_source_quality_classification s = any (text_eq s) source_quality_classifications

-- The sign of a comparison.
pub data Order : Type 0 where
  before same after : Order

-- `strings.Compare`; the bytes of UTF-8 stand in the order of the code points.
unfoldable pub text_compare : Text → Text → Order
text_compare [] [] = same
text_compare [] (d ∷ t) = before
text_compare (c ∷ s) [] = after
text_compare (c ∷ s) (d ∷ t) =
    let rest = text_compare s t in if ltb c d then before else if ltb d c then after else rest

abbrev pub compare_downloadable : Bool → Bool → Order → Order
compare_downloadable true false next = before
compare_downloadable false true next = after
compare_downloadable true true next = next
compare_downloadable false false next = next

unfoldable pub compare_candidate_rank : CandidateSnapshot → CandidateSnapshot → Order
unfolding recommendation_order text_compare
compare_candidate_rank a b =
    let s = a.source_quality.score in
    let t = b.source_quality.score in
    let p = recommendation_order a.source_quality.recommendation in
    let q = recommendation_order b.source_quality.recommendation in
    if ltb_ℤ t s
    then before
    else if ltb_ℤ s t
    then after
    else if ltb q p
    then before
    else if ltb p q
    then after
    else compare_downloadable a.downloadable b.downloadable
        (text_compare a.candidate_id b.candidate_id)

abbrev pub is_before : Order → Bool
is_before before = true
is_before same = false
is_before after = false

abbrev pub is_after : Order → Bool
is_after before = false
is_after same = false
is_after after = true

-- A candidate put before the first that it does not come after.
abbrev pub insert_ranked : CandidateSnapshot → List CandidateSnapshot → List CandidateSnapshot
insert_ranked c [] = c ∷ []
insert_ranked c (d ∷ ds) =
    let rest = insert_ranked c ds in
    elim (is_after (compare_candidate_rank c d)) [ true ↦ d ∷ rest | false ↦ c ∷ d ∷ ds ]

unfoldable pub sort_candidate_snapshots : List CandidateSnapshot → List CandidateSnapshot
unfolding compare_candidate_rank
sort_candidate_snapshots [] = []
sort_candidate_snapshots (c ∷ cs) = insert_ranked c (sort_candidate_snapshots cs)
