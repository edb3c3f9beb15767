-- ===== src/Matcher/Rows.antt =====
-- backend/internal/matcher/similarity.go: the two rows of levenshteinDistance.
use open_music_player.Prelude.{
  ℕ, suc, ◌≤◌, ◌≡◌, refl, ap, sym, subst, ◌∙◌, List, [], ◌∷◌, length, Text,
}
use open_music_player.Matcher.Levenshtein.{
  next_cells, fill_rows, first_row, last_cell, levenshtein_distance,
}
use open_music_player.Matcher.Scripts.{
  Script, distance, distance-Script, Script-distance, distance-rev, rev,
}

-- The distances from `s` to `acc` and to each longer part of the second text.
abbrev row : Text → Text → Text → List ℕ
row s acc [] = distance s acc ∷ []
row s acc (b ∷ t) = distance s acc ∷ row s (b ∷ acc) t

abbrev row_rest : Text → Text → Text → List ℕ
row_rest s acc [] = []
row_rest s acc (b ∷ t) = row s (b ∷ acc) t

row-cons : (s acc t : Text) → row s acc t ≡ distance s acc ∷ row_rest s acc t
row-cons s acc [] = refl
row-cons s acc (b ∷ t) = refl

next_cells-row :
    (a : ℕ) (s acc t : Text)
    → next_cells a t (distance (a ∷ s) acc) (distance s acc) (row_rest s acc t)
      ≡ row_rest (a ∷ s) acc t
unfolding next_cells distance
next_cells-row a s acc [] = refl
next_cells-row a s acc (b ∷ t) =
    ap (next_cells a (b ∷ t) (distance (a ∷ s) acc) (distance s acc)) (row-cons s (b ∷ acc) t)
    ∙ ap (◌∷◌ (distance (a ∷ s) (b ∷ acc))) (next_cells-row a s (b ∷ acc) t)
    ∙ sym (row-cons (a ∷ s) (b ∷ acc) t)

first_row-row : (acc t : Text) → first_row (length acc) t ≡ row [] acc t
unfolding first_row distance
first_row-row acc [] = refl
first_row-row acc (b ∷ t) = ap (◌∷◌ (length acc)) (first_row-row (b ∷ acc) t)

fill_rows-row :
    (done s t : Text) → fill_rows (length done) s t (row done [] t) ≡ row (rev s done) [] t
unfolding fill_rows distance
fill_rows-row done [] t = refl
fill_rows-row done (a ∷ s) t =
    ap (fill_rows (length done) (a ∷ s) t) (row-cons done [] t)
    ∙ ap (fill_rows (suc (length done)) s t)
        (ap (◌∷◌ (suc (length done))) (next_cells-row a done [] t) ∙ sym (row-cons (a ∷ done) [] t))
    ∙ fill_rows-row (a ∷ done) s t

last_cell-row : (s acc t : Text) → last_cell (row s acc t) ≡ distance s (rev t acc)
unfolding last_cell
last_cell-row s acc [] = refl
last_cell-row s acc (b ∷ t) =
    ap (λ r. last_cell (distance s acc ∷ r)) (row-cons s (b ∷ acc) t)
    ∙ sym (ap last_cell (row-cons s (b ∷ acc) t))
    ∙ last_cell-row s (b ∷ acc) t

levenshtein_distance-distance :
    (a : ℕ) (s : Text) (b : ℕ) (t : Text)
    → levenshtein_distance (a ∷ s) (b ∷ t) ≡ distance (a ∷ s) (b ∷ t)
unfolding levenshtein_distance
levenshtein_distance-distance a s b t =
    ap (λ r. last_cell (fill_rows 0 (a ∷ s) (b ∷ t) r)) (first_row-row [] (b ∷ t))
    ∙ ap last_cell (fill_rows-row [] (a ∷ s) (b ∷ t))
    ∙ last_cell-row (rev (a ∷ s) []) [] (b ∷ t)
    ∙ distance-rev (a ∷ s) (b ∷ t)

-- For two texts that are not empty, levenshteinDistance is the least number of runes that must be
-- deleted, inserted or replaced to make the second of the first: some script has that many, and none
-- has fewer.
pub levenshtein_distance_lem :
    (a : ℕ) (s : Text) (b : ℕ) (t : Text)
    → Script (a ∷ s) (b ∷ t) (levenshtein_distance (a ∷ s) (b ∷ t))
      × ((n : ℕ) → Script (a ∷ s) (b ∷ t) n → levenshtein_distance (a ∷ s) (b ∷ t) ≤ n)
levenshtein_distance_lem a s b t =
    let e = levenshtein_distance-distance a s b t in
    (
      subst (Script (a ∷ s) (b ∷ t)) (sym e) (distance-Script (a ∷ s) (b ∷ t)),
      λ n script. subst (λ d. d ≤ n) (sym e) (Script-distance (a ∷ s) (b ∷ t) n script),
    )
