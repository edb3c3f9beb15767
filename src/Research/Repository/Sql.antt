-- ===== src/Research/Repository/Sql.antt =====
-- backend/internal/research/postgres_repository.go: the SQL it uses. A table is the list of its
-- rows; a statement with a WHERE clause takes the clause as a test.
use open_music_player.Prelude.{
  ℕ, suc, ◌+◌, ◌≤◌, ◌≡◌, refl, sym, subst, inl, inr, Bool, true, false, ◌&&◌, Option, none, some,
  List, [], ◌∷◌, ◌++◌, if◌then◌else◌, All, arith, Bool-cases,
}

module _ {ℓ} {A : Type ℓ} where
  abbrev pub select_where : (A → Bool) → List A → Option A
  select_where p [] = none
  select_where p (x ∷ xs) = elim (p x) [ true ↦ some x | false ↦ select_where p xs ]

  abbrev pub update_where : (A → Bool) → (A → A) → List A → List A
  update_where p f [] = []
  update_where p f (x ∷ xs) = (if p x then f x else x) ∷ update_where p f xs

  abbrev pub count_where : (A → Bool) → List A → ℕ
  count_where p [] = 0
  count_where p (x ∷ xs) = let n = count_where p xs in if p x then suc n else n

module _ {ℓ} {A : Type ℓ} where
  pub select_where-true :
      (p : A → Bool) (xs : List A) (x : A) → select_where p xs ≡ some x → p x ≡ true
  select_where-true p [] x h = absurd (cc h)
  select_where-true p (y ∷ xs) x h = elim (Bool-cases (p y)) [
    | inl yes_here ↦ ground (arith, yes_here, h)
    | inr not_here ↦ select_where-true p xs x (ground (arith, not_here, h))
  ]

  pub select_where-All {κ} :
      (P : A → Type κ) (p : A → Bool) (xs : List A) (x : A)
      → All P xs
      → select_where p xs ≡ some x
      → P x
  select_where-All P p [] x all h = absurd (cc h)
  select_where-All P p (y ∷ xs) x all h = elim (Bool-cases (p y)) [
    | inl yes_here ↦ let e : y ≡ x = ground (arith, yes_here, h) in subst P e all.0
    | inr not_here ↦ select_where-All P p xs x all.1 (ground (arith, not_here, h))
  ]

  pub update_where-All {κ} :
      (P : A → Type κ) (p : A → Bool) (f : A → A) (xs : List A)
      → ((x : A) → P x → P (f x))
      → All P xs
      → All P (update_where p f xs)
  update_where-All P p f [] keeps all = tt
  update_where-All P p f (x ∷ xs) keeps all = elim (Bool-cases (p x)) [
    | inl here ↦ rw (here) (keeps x all.0, update_where-All P p f xs keeps all.1)
    | inr other ↦ rw (other) (all.0, update_where-All P p f xs keeps all.1)
  ]

  -- An update that leaves a test as it is leaves its count.
  pub count_where-update_where :
      (q p : A → Bool) (f : A → A) (xs : List A)
      → ((x : A) → q (f x) ≡ q x)
      → count_where q (update_where p f xs) ≡ count_where q xs
  count_where-update_where q p f [] same = refl
  count_where-update_where q p f (x ∷ xs) same =
      ground (arith, count_where-update_where q p f xs same, same x)

  -- An update after which a test fails takes the rows it changes from the count.
  pub count_where-update_where_drop :
      (q p : A → Bool) (f : A → A) (xs : List A)
      → ((x : A) → p x ≡ true → q (f x) ≡ false)
      → count_where q (update_where p f xs) + count_where (λ x. q x && p x) xs ≡ count_where q xs
  count_where-update_where_drop q p f [] drops = refl
  count_where-update_where_drop q p f (x ∷ xs) drops = elim (Bool-cases (p x)) [
    | inl here ↦ ground (arith, count_where-update_where_drop q p f xs drops, drops x here, here)
    | inr other ↦ ground (arith, count_where-update_where_drop q p f xs drops, other)
  ]

  pub count_where-le :
      (q p : A → Bool) (xs : List A)
      → ((x : A) → q x ≡ true → p x ≡ true)
      → count_where q xs ≤ count_where p xs
  count_where-le q p [] implies = omega arith
  count_where-le q p (x ∷ xs) implies = ground (arith, count_where-le q p xs implies, implies x)

  pub count_where-select_where :
      (p : A → Bool) (xs : List A) (x : A) → select_where p xs ≡ some x → 1 ≤ count_where p xs
  count_where-select_where p [] x h = absurd (cc h)
  count_where-select_where p (y ∷ xs) x h = elim (Bool-cases (p y)) [
    | inl here ↦ ground (arith, here)
    | inr other ↦ ground (arith, other, count_where-select_where p xs x (ground (arith, other, h)))
  ]

  pub count_where-ext :
      (q p : A → Bool) (xs : List A) → ((x : A) → q x ≡ p x) → count_where q xs ≡ count_where p xs
  count_where-ext q p [] same = refl
  count_where-ext q p (x ∷ xs) same = ground (arith, count_where-ext q p xs same, same x)

  pub count_where-append :
      (q : A → Bool) (xs ys : List A)
      → count_where q (xs ++ ys) ≡ count_where q xs + count_where q ys
  count_where-append q [] ys = omega arith
  count_where-append q (x ∷ xs) ys = ground (arith, count_where-append q xs ys)

  pub select_where-update_where :
      (q p : A → Bool) (f : A → A) (xs : List A)
      → ((x : A) → q (f x) ≡ q x)
      → select_where q (update_where p f xs)
        ≡ elim (select_where q xs) [ none ↦ none | some x ↦ some (if p x then f x else x) ]
  select_where-update_where q p f [] same = refl
  select_where-update_where q p f (x ∷ xs) same =
      ground (arith, select_where-update_where q p f xs same, same x)

  pub select_where-append :
      (q : A → Bool) (xs ys : List A) (x : A)
      → select_where q xs ≡ some x
      → select_where q (xs ++ ys) ≡ some x
  select_where-append q [] ys x h = absurd (cc h)
  select_where-append q (y ∷ xs) ys x h = elim (Bool-cases (q y)) [
    | inl here ↦ ground (arith, here, h)
    | inr other ↦ ground (arith, other, select_where-append q xs ys x (ground (arith, other, h)))
  ]

  pub count_where-none :
      (p : A → Bool) (xs : List A) → select_where p xs ≡ none → count_where p xs ≡ 0
  count_where-none p [] h = refl
  count_where-none p (x ∷ xs) h = elim (Bool-cases (p x)) [
    | inl here ↦ absurd (ground (arith, here, h))
    | inr other ↦ ground (arith, other, count_where-none p xs (ground (arith, other, h)))
  ]

  count_where-zero :
      (q : A → Bool) (xs : List A) (x : A) → count_where q xs ≤ 0 → All (λ y. q y ≡ true → y ≡ x) xs
  count_where-zero q [] x h = tt
  count_where-zero q (y ∷ xs) x h = (
    λ yes_here. absurd (ground (arith, yes_here, h)),
    count_where-zero q xs x (ground (arith, h)),
  )

  pub count_where-one :
      (q p : A → Bool) (xs : List A) (x : A)
      → select_where p xs ≡ some x
      → ((y : A) → p y ≡ true → q y ≡ true)
      → count_where q xs ≤ 1
      → All (λ y. q y ≡ true → y ≡ x) xs
  count_where-one q p [] x found implies once = tt
  count_where-one q p (y ∷ xs) x found implies once = elim (Bool-cases (p y)) [
    | inl here ↦
        let e : y ≡ x = ground (arith, here, found) in
        let none_left : count_where q xs ≤ 0 = ground (arith, once, implies y here) in
        (λ h. e, count_where-zero q xs x none_left)
    | inr other ↦
        let later : select_where p xs ≡ some x = ground (arith, other, found) in
        let there : 1 ≤ count_where p xs = count_where-select_where p xs x later in
        let also : count_where p xs ≤ count_where q xs = count_where-le p q xs implies in
        (
          λ h. absurd (ground (arith, once, there, also, h)),
          count_where-one q p xs x later implies (ground (arith, once)),
        )
  ]

  pub count_where-both :
      (q p : A → Bool) (xs : List A) (x : A)
      → select_where p xs ≡ some x
      → q x ≡ true
      → 1 ≤ count_where (λ y. q y && p y) xs
  count_where-both q p [] x found h = absurd (cc found)
  count_where-both q p (y ∷ xs) x found h = elim (Bool-cases (p y)) [
    | inl here ↦
        let e : y ≡ x = ground (arith, here, found) in
        let both : q y ≡ true = subst (λ z. q z ≡ true) (sym e) h in ground (arith, here, both)
    | inr other ↦ ground (arith, other, count_where-both q p xs x (ground (arith, other, found)) h)
  ]

  pub count_where-no_other :
      (q p : A → Bool) (xs : List A) (x : A)
      → All (λ y. p y ≡ true → y ≡ x) xs
      → q x ≡ false
      → count_where (λ y. q y && p y) xs ≡ 0
  count_where-no_other q p [] x all h = refl
  count_where-no_other q p (y ∷ xs) x all h = elim (Bool-cases (p y)) [
    | inl here ↦
        let not_it : q y ≡ false = subst (λ z. q z ≡ false) (sym (all.0 here)) h in
        ground (arith, here, not_it, count_where-no_other q p xs x all.1 h)
    | inr other ↦ ground (arith, other, count_where-no_other q p xs x all.1 h)
  ]

  pub select_where-append_none :
      (p : A → Bool) (xs : List A) (x : A)
      → select_where p xs ≡ none
      → p x ≡ true
      → select_where p (xs ++ (x ∷ [])) ≡ some x
  select_where-append_none p [] x h here = ground (arith, here)
  select_where-append_none p (y ∷ xs) x h here = elim (Bool-cases (p y)) [
    | inl other ↦ absurd (ground (arith, other, h))
    | inr skipped ↦
        ground (arith, skipped, select_where-append_none p xs x (ground (arith, skipped, h)) here)
  ]
