-- ===== src/Matcher/Tests.antt =====
-- Runs of the edit distance of backend/internal/matcher/similarity.go.
use open_music_player.Prelude.{ℕ, ◌≡◌, ◌≤◌, refl, codes, byte_length, rune_length, ◌∷◌, []}
use open_music_player.Matcher.Levenshtein.{
  levenshtein_distance, fill_rows, first_row, next_cells, last_cell,
}
use open_music_player.Matcher.Scripts.{Script}
use open_music_player.Matcher.Rows.{levenshtein_distance_lem}

kitten : levenshtein_distance (codes "kitten") (codes "sitting") ≡ 3
unfolding levenshtein_distance fill_rows first_row next_cells last_cell
kitten = refl

-- Beside an empty text the bytes are counted, here two for one rune.
accent : levenshtein_distance [] (0xe9 ∷ []) ≡ 2
unfolding levenshtein_distance byte_length rune_length
accent = refl

levenshtein_distance_lem_example :
    Script (codes "live") (codes "love") (levenshtein_distance (codes "live") (codes "love"))
    × ((n : ℕ)
        → Script (codes "live") (codes "love") n
        → levenshtein_distance (codes "live") (codes "love") ≤ n)
levenshtein_distance_lem_example = levenshtein_distance_lem b'l' (codes "ive") b'l' (codes "ove")
