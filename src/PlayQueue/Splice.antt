-- ===== src/PlayQueue/Splice.antt =====
-- Insertion into and deletion from a list by index, as plain recursions: what the slice code of
-- backend/internal/queue/queue.go is compared with.
use mathlib.Core.List.{Perm}
use mathlib.Core.List.Perm
use open_music_player.Prelude.{
  ℕ, zero, suc, ◌≤◌, ◌<◌, ◌≡◌, refl, ap, some, List, [], ◌∷◌, map, arith, length, get_elem?,
}

module _ {ℓ} {A : Type ℓ} where
  -- Beyond the end the item is appended.
  abbrev pub put_at : ℕ → A → List A → List A
  put_at zero a xs = a ∷ xs
  put_at (suc i) a [] = a ∷ []
  put_at (suc i) a (x ∷ xs) = x ∷ put_at i a xs

  abbrev pub cut_at : ℕ → List A → List A
  cut_at i [] = []
  cut_at zero (x ∷ xs) = xs
  cut_at (suc i) (x ∷ xs) = x ∷ cut_at i xs

  pub length-put_at : (i : ℕ) (a : A) (xs : List A) → length (put_at i a xs) ≡ suc (length xs)
  length-put_at zero a xs = refl
  length-put_at (suc i) a [] = refl
  length-put_at (suc i) a (x ∷ xs) = ap suc (length-put_at i a xs)

  pub length-cut_at : (i : ℕ) (xs : List A) → i < length xs → suc (length (cut_at i xs)) ≡ length xs
  length-cut_at i [] h = elim h [ ]
  length-cut_at zero (x ∷ xs) h = refl
  length-cut_at (suc i) (x ∷ xs) h = ap suc (length-cut_at i xs (omega arith))

  pub get-put_at_self :
      (i : ℕ) (a : A) (xs : List A) → i ≤ length xs → get_elem? (put_at i a xs) i ≡ some a
  get-put_at_self zero a xs h = refl
  get-put_at_self (suc i) a [] h = elim h [ ]
  get-put_at_self (suc i) a (x ∷ xs) h = get-put_at_self i a xs (omega arith)

  pub get-put_at_below :
      (i j : ℕ) (a : A) (xs : List A)
      → j < i
      → j < length xs
      → get_elem? (put_at i a xs) j ≡ get_elem? xs j
  get-put_at_below i j a [] h k = elim k [ ]
  get-put_at_below zero j a (x ∷ xs) h k = elim h [ ]
  get-put_at_below (suc i) zero a (x ∷ xs) h k = refl
  get-put_at_below (suc i) (suc j) a (x ∷ xs) h k =
      get-put_at_below i j a xs (omega arith) (omega arith)

  pub get-put_at_above :
      (i j : ℕ) (a : A) (xs : List A)
      → i ≤ j
      → i ≤ length xs
      → get_elem? (put_at i a xs) (suc j) ≡ get_elem? xs j
  get-put_at_above zero j a xs h k = refl
  get-put_at_above (suc i) j a [] h k = elim k [ ]
  get-put_at_above (suc i) zero a (x ∷ xs) h k = elim h [ ]
  get-put_at_above (suc i) (suc j) a (x ∷ xs) h k =
      get-put_at_above i j a xs (omega arith) (omega arith)

  pub get-cut_at_below :
      (i j : ℕ) (xs : List A) → j < i → get_elem? (cut_at i xs) j ≡ get_elem? xs j
  get-cut_at_below i j [] h = refl
  get-cut_at_below zero j (x ∷ xs) h = elim h [ ]
  get-cut_at_below (suc i) zero (x ∷ xs) h = refl
  get-cut_at_below (suc i) (suc j) (x ∷ xs) h = get-cut_at_below i j xs (omega arith)

  pub get-cut_at_above :
      (i j : ℕ) (xs : List A) → i ≤ j → get_elem? (cut_at i xs) j ≡ get_elem? xs (suc j)
  get-cut_at_above i j [] h = refl
  get-cut_at_above zero j (x ∷ xs) h = refl
  get-cut_at_above (suc i) zero (x ∷ xs) h = elim h [ ]
  get-cut_at_above (suc i) (suc j) (x ∷ xs) h = get-cut_at_above i j xs (omega arith)

  pub cut_at-put_at : (i : ℕ) (a : A) (xs : List A) → i ≤ length xs → cut_at i (put_at i a xs) ≡ xs
  cut_at-put_at zero a xs h = refl
  cut_at-put_at (suc i) a [] h = elim h [ ]
  cut_at-put_at (suc i) a (x ∷ xs) h = ap (◌∷◌ x) (cut_at-put_at i a xs (omega arith))

  pub put_at-cut_at :
      (i : ℕ) (a : A) (xs : List A) → get_elem? xs i ≡ some a → put_at i a (cut_at i xs) ≡ xs
  put_at-cut_at i a [] h = absurd (cc h)
  put_at-cut_at zero a (x ∷ xs) h = cc h
  put_at-cut_at (suc i) a (x ∷ xs) h = ap (◌∷◌ x) (put_at-cut_at i a xs h)

  pub put_at-perm : (i : ℕ) (a : A) (xs : List A) → Perm (put_at i a xs) (a ∷ xs)
  put_at-perm zero a xs = Perm.refl _
  put_at-perm (suc i) a [] = Perm.refl _
  put_at-perm (suc i) a (x ∷ xs) = Perm.trans (Perm.cons x (put_at-perm i a xs)) (Perm.swap a x xs)

  pub cut_at-perm :
      (i : ℕ) (a : A) (xs : List A) → get_elem? xs i ≡ some a → Perm (a ∷ cut_at i xs) xs
  cut_at-perm i a [] h = absurd (cc h)
  cut_at-perm zero a (x ∷ xs) h = Perm.cons' (ground arith) (Perm.refl xs)
  cut_at-perm (suc i) a (x ∷ xs) h =
      Perm.trans (Perm.swap x a _) (Perm.cons x (cut_at-perm i a xs h))

module _ {ℓ κ} {A : Type ℓ} {B : Type κ} (f : A → B) where
  pub map-put_at : (i : ℕ) (a : A) (xs : List A) → map f (put_at i a xs) ≡ put_at i (f a) (map f xs)
  map-put_at zero a xs = refl
  map-put_at (suc i) a [] = refl
  map-put_at (suc i) a (x ∷ xs) = ap (◌∷◌ (f x)) (map-put_at i a xs)

  pub map-cut_at : (i : ℕ) (xs : List A) → map f (cut_at i xs) ≡ cut_at i (map f xs)
  map-cut_at i [] = refl
  map-cut_at zero (x ∷ xs) = refl
  map-cut_at (suc i) (x ∷ xs) = ap (◌∷◌ (f x)) (map-cut_at i xs)

  pub get_elem?-map :
      (i : ℕ) (xs : List A) {a : A} → get_elem? xs i ≡ some a → get_elem? (map f xs) i ≡ some (f a)
  get_elem?-map i [] h = absurd (cc h)
  get_elem?-map zero (x ∷ xs) h = cc h
  get_elem?-map (suc i) (x ∷ xs) h = get_elem?-map i xs h
