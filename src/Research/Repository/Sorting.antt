-- ===== src/Research/Repository/Sorting.antt =====
-- backend/internal/research/postgres_repository.go: what WHERE, ORDER BY and LIMIT keep of the rows.
use open_music_player.Prelude.{
  ℕ, zero, suc, inl, inr, Bool, List, [], ◌∷◌, All, keep, take, Bool-cases,
}
use open_music_player.Research.Repository.Lease.{insert_sorted, order_by}

module _ {ℓ κ} {A : Type ℓ} (P : A → Type κ) where
  pub All-keep : (p : A → Bool) (xs : List A) → All P xs → All P (keep p xs)
  All-keep p [] all = tt
  All-keep p (x ∷ xs) all = elim (Bool-cases (p x)) [
    | inl kept ↦ rw (kept, keep) (all.0, All-keep p xs all.1)
    | inr dropped ↦ rw (dropped, keep) (All-keep p xs all.1)
  ]

  pub All-take : (n : ℕ) (xs : List A) → All P xs → All P (take n xs)
  All-take zero xs all = tt
  All-take (suc n) [] all = tt
  All-take (suc n) (x ∷ xs) all = (all.0, All-take n xs all.1)

  All-insert_sorted :
      (before : A → A → Bool) (x : A) (xs : List A)
      → P x
      → All P xs
      → All P (insert_sorted before x xs)
  All-insert_sorted before x [] h all = (h, tt)
  All-insert_sorted before x (y ∷ ys) h all = elim (Bool-cases (before y x)) [
    | inl later ↦ rw (later, insert_sorted) (all.0, All-insert_sorted before x ys h all.1)
    | inr here ↦ rw (here, insert_sorted) (h, all)
  ]

  pub All-order_by : (before : A → A → Bool) (xs : List A) → All P xs → All P (order_by before xs)
  All-order_by before [] all = tt
  All-order_by before (x ∷ xs) all =
      All-insert_sorted before x (order_by before xs) all.0 (All-order_by before xs all.1)
