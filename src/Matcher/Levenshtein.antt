-- ===== src/Matcher/Levenshtein.antt =====
-- backend/internal/matcher/similarity.go: levenshteinDistance. A string is its code points; `len` of a
-- string counts the bytes of its encoding.
use open_music_player.Prelude.{
  ℕ, suc, ◌+◌, min, List, [], ◌∷◌, if◌then◌else◌, ◌==◌, Text, byte_length,
}

abbrev pub cost : ℕ → ℕ → ℕ
cost a b = if a == b then 0 else 1

-- `prev[j]+1`, `curr[j-1]+1` and `prev[j-1]+cost`
abbrev pub cell : ℕ → ℕ → ℕ → ℕ → ℕ → ℕ
cell a b above left diagonal = min (min (above + 1) (left + 1)) (diagonal + cost a b)

-- `curr` from its second cell on, for the rune `a` of the first string and the rest of the second;
-- `left` is the cell before, `diagonal` the one above that, `prev` the cells above.
unfoldable pub next_cells : ℕ → Text → ℕ → ℕ → List ℕ → List ℕ
next_cells a [] left diagonal prev = []
next_cells a (b ∷ t) left diagonal [] = []
next_cells a (b ∷ t) left diagonal (above ∷ prev) =
    let here = cell a b above left diagonal in here ∷ next_cells a t here above prev

-- The loop over the first string; `i` is the index of its next rune.
unfoldable pub fill_rows : ℕ → Text → Text → List ℕ → List ℕ
unfolding next_cells
fill_rows i [] t prev = prev
fill_rows i (a ∷ s) t [] = []
fill_rows i (a ∷ s) t (diagonal ∷ prev) =
    fill_rows (suc i) s t (suc i ∷ next_cells a t (suc i) diagonal prev)

-- `prev[j] = j`
unfoldable pub first_row : ℕ → Text → List ℕ
first_row j [] = j ∷ []
first_row j (b ∷ t) = j ∷ first_row (suc j) t

-- `prev[lenS2]`
unfoldable pub last_cell : List ℕ → ℕ
last_cell [] = 0
last_cell (n ∷ []) = n
last_cell (n ∷ m ∷ ns) = last_cell (m ∷ ns)

unfoldable pub levenshtein_distance : Text → Text → ℕ
unfolding byte_length fill_rows first_row last_cell
levenshtein_distance [] s2 = byte_length s2
levenshtein_distance (a ∷ s1) [] = byte_length (a ∷ s1)
levenshtein_distance (a ∷ s1) (b ∷ s2) =
    last_cell (fill_rows 0 (a ∷ s1) (b ∷ s2) (first_row 0 (b ∷ s2)))
