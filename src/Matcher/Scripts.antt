-- ===== src/Matcher/Scripts.antt =====
-- backend/internal/matcher/similarity.go: what levenshteinDistance is to count, the edit scripts from
-- one text to another, and their least length by recursion.
use open_music_player.Prelude.{
  ℕ, suc, ◌+◌, ◌≤◌, ◌≡◌, refl, ap, sym, subst, ◌∙◌, ◌⊎◌, inl, inr, min, [], ◌∷◌, ◌++◌, append_assoc,
  leb, ◌&&◌, ◌==◌, ==_iff, length, Text, Bool-cases, arith,
}
use open_music_player.Matcher.Levenshtein.{cost, cell}

-- A way to make the second text of the first: `n` runes are deleted, inserted or replaced.
pub data Script : Text → Text → ℕ → Type 0 where
  stop : Script [] [] 0
  delete : (a : ℕ) {s t : Text} {n : ℕ} → Script s t n → Script (a ∷ s) t (suc n)
  insert : (b : ℕ) {s t : Text} {n : ℕ} → Script s t n → Script s (b ∷ t) (suc n)
  keep : (a : ℕ) {s t : Text} {n : ℕ} → Script s t n → Script (a ∷ s) (a ∷ t) n
  replace : (a b : ℕ) {s t : Text} {n : ℕ} → Script s t n → Script (a ∷ s) (b ∷ t) (suc n)

unfoldable pub distance : Text → Text → ℕ
distance [] t = length t
distance (a ∷ s) [] = suc (length s)
distance (a ∷ s) (b ∷ t) = cell a b (distance s (b ∷ t)) (distance (a ∷ s) t) (distance s t)

pub distance-nil : (s : Text) → distance s [] ≡ length s
unfolding distance
distance-nil [] = refl
distance-nil (a ∷ s) = refl

distance-delete : (a : ℕ) (s t : Text) → distance (a ∷ s) t ≤ suc (distance s t)
unfolding distance
distance-delete a s [] = ground (arith, distance-nil s)
distance-delete a s (b ∷ t) = omega arith

distance-insert : (b : ℕ) (s t : Text) → distance s (b ∷ t) ≤ suc (distance s t)
unfolding distance
distance-insert b [] t = omega arith
distance-insert b (a ∷ s) t = omega arith

-- No script is shorter.
pub Script-distance : (s t : Text) (n : ℕ) → Script s t n → distance s t ≤ n
unfolding distance
Script-distance _ _ _ stop = omega arith
Script-distance _ _ _ (delete a {s} {t} {n} e) =
    omega (arith, distance-delete a s t, Script-distance s t n e)
Script-distance _ _ _ (insert b {s} {t} {n} e) =
    omega (arith, distance-insert b s t, Script-distance s t n e)
Script-distance _ _ _ (keep a {s} {t} {n} e) = ground (arith, Script-distance s t n e)
Script-distance _ _ _ (replace a b {s} {t} {n} e) = ground (arith, Script-distance s t n e)

insert_all : (t : Text) → Script [] t (length t)
insert_all [] = stop
insert_all (b ∷ t) = insert b (insert_all t)

delete_all : (s : Text) → Script s [] (length s)
delete_all [] = stop
delete_all (a ∷ s) = delete a (delete_all s)

least_of : (x y z : ℕ) → (min (min x y) z ≡ x) ⊎ ((min (min x y) z ≡ y) ⊎ (min (min x y) z ≡ z))
least_of x y z = elim (Bool-cases (leb x y && leb x z)) [
  | inl first ↦ inl (ground (arith, first))
  | inr other ↦ elim (Bool-cases (leb y z)) [
    | inl second ↦ inr (inl (ground (arith, other, second)))
    | inr third ↦ inr (inr (ground (arith, other, third)))
  ]
]

cost_script : (a b : ℕ) (s t : Text) (n : ℕ) → Script s t n → Script (a ∷ s) (b ∷ t) (n + cost a b)
cost_script a b s t n e = elim (Bool-cases (a == b)) [
  | inl same ↦
      subst (λ c. Script (a ∷ s) (c ∷ t) (n + cost a b)) ((==_iff a b).0 same)
        (subst (Script (a ∷ s) (a ∷ t)) (ground (arith, same)) (keep a e))
  | inr other ↦ subst (Script (a ∷ s) (b ∷ t)) (ground (arith, other)) (replace a b e)
]

-- There is a script of that length.
pub distance-Script : (s t : Text) → Script s t (distance s t)
unfolding distance
distance-Script [] t = insert_all t
distance-Script (a ∷ s) [] = delete_all (a ∷ s)
distance-Script (a ∷ s) (b ∷ t) =
    elim (least_of (distance s (b ∷ t) + 1) (distance (a ∷ s) t + 1) (distance s t + cost a b)) [
      | inl above ↦
          subst (Script (a ∷ s) (b ∷ t)) (omega (arith, above))
            (delete a (distance-Script s (b ∷ t)))
      | inr (inl left) ↦
          subst (Script (a ∷ s) (b ∷ t)) (omega (arith, left))
            (insert b (distance-Script (a ∷ s) t))
      | inr (inr diagonal) ↦
          subst (Script (a ∷ s) (b ∷ t)) (sym diagonal)
            (cost_script a b s t (distance s t) (distance-Script s t))
    ]

Script-append :
    (s t u v : Text) (n m : ℕ) → Script s t n → Script u v m → Script (s ++ u) (t ++ v) (n + m)
Script-append _ _ u v _ m stop f = subst (Script u v) (omega arith) f
Script-append _ _ u v _ m (delete a {s} {t} {n} e) f =
    subst (Script _ _) (omega arith) (delete a (Script-append s t u v n m e f))
Script-append _ _ u v _ m (insert b {s} {t} {n} e) f =
    subst (Script _ _) (omega arith) (insert b (Script-append s t u v n m e f))
Script-append _ _ u v _ m (keep a {s} {t} {n} e) f = keep a (Script-append s t u v n m e f)
Script-append _ _ u v _ m (replace a b {s} {t} {n} e) f =
    subst (Script _ _) (omega arith) (replace a b (Script-append s t u v n m e f))

-- `rev s acc` is `s` backwards before `acc`.
abbrev pub rev : Text → Text → Text
rev [] acc = acc
rev (a ∷ s) acc = rev s (a ∷ acc)

rev-append : (s acc : Text) → rev s acc ≡ rev s [] ++ acc
rev-append [] acc = refl
rev-append (a ∷ s) acc =
    rev-append s (a ∷ acc)
    ∙ sym (append_assoc (rev s []) (a ∷ []) acc)
    ∙ ap (λ r. r ++ acc) (sym (rev-append s (a ∷ [])))

rev-rev : (s acc : Text) → rev (rev s acc) [] ≡ rev acc s
rev-rev [] acc = refl
rev-rev (a ∷ s) acc = rev-rev s (a ∷ acc)

snoc_script :
    (s t u v : Text) (n m k : ℕ)
    → n + m ≡ k
    → Script (rev s []) (rev t []) n
    → Script u v m
    → Script (rev s u) (rev t v) k
snoc_script s t u v n m k total e f = subst (Script (rev s u) (rev t v)) total (
    subst (λ x. Script x (rev t v) (n + m)) (sym (rev-append s u))
      (subst (λ x. Script (rev s [] ++ u) x (n + m)) (sym (rev-append t v))
        (Script-append (rev s []) (rev t []) u v n m e f)))

-- A script can be carried out from the end.
pub Script-rev : (s t : Text) (n : ℕ) → Script s t n → Script (rev s []) (rev t []) n
Script-rev _ _ _ stop = stop
Script-rev _ _ _ (delete a {s} {t} {n} e) =
    snoc_script s t (a ∷ []) [] n 1 (suc n) (omega arith) (Script-rev s t n e) (delete a stop)
Script-rev _ _ _ (insert b {s} {t} {n} e) =
    snoc_script s t [] (b ∷ []) n 1 (suc n) (omega arith) (Script-rev s t n e) (insert b stop)
Script-rev _ _ _ (keep a {s} {t} {n} e) =
    snoc_script s t (a ∷ []) (a ∷ []) n 0 n (omega arith) (Script-rev s t n e) (keep a stop)
Script-rev _ _ _ (replace a b {s} {t} {n} e) =
    snoc_script s t (a ∷ []) (b ∷ []) n 1 (suc n) (omega arith) (Script-rev s t n e)
      (replace a b stop)

pub distance-rev : (s t : Text) → distance (rev s []) (rev t []) ≡ distance s t
distance-rev s t =
    let forth : distance (rev s []) (rev t []) ≤ distance s t =
      Script-distance (rev s []) (rev t []) (distance s t)
        (Script-rev s t (distance s t) (distance-Script s t)) in
    let back : distance s t ≤ distance (rev s []) (rev t []) =
      Script-distance s t (distance (rev s []) (rev t [])) (
        subst (λ x. Script x t (distance (rev s []) (rev t []))) (rev-rev s [])
          (subst (λ x. Script (rev (rev s []) []) x (distance (rev s []) (rev t []))) (rev-rev t [])
            (Script-rev (rev s []) (rev t []) (distance (rev s []) (rev t []))
              (distance-Script (rev s []) (rev t []))))) in
    omega (arith, forth, back)
