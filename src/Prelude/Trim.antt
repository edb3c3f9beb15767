-- ===== src/Prelude/Trim.antt =====
-- `strings.TrimSpace` of a text without spaces.
use Prim.Native.Nat.{ℕ}
use mathlib.Core.Path.{◌≡◌, refl, ap, ◌∙◌}
use mathlib.Core.Bool.{Bool, false}
use mathlib.Core.List.{[], ◌∷◌, reverse, reverse_aux, reverse-reverse}
use native.Mathlib.Omega.{arith}
use open_music_player.Prelude.Lists.{any}
use open_music_player.Prelude.Strings.{Text, is_space, trim_left, trim_space}

any-cons_false :
    (p : ℕ → Bool) (c : ℕ) (s : Text) → any p (c ∷ s) ≡ false → (p c ≡ false) × (any p s ≡ false)
any-cons_false p c s h = (ground arith, ground arith)

any-cons : (p : ℕ → Bool) (c : ℕ) (s : Text) → p c ≡ false → any p s ≡ false → any p (c ∷ s) ≡ false
any-cons p c s here there = ground arith

any-reverse_aux :
    (p : ℕ → Bool) (s t : Text)
    → any p s ≡ false
    → any p t ≡ false
    → any p (reverse_aux s t) ≡ false
any-reverse_aux p [] t hs ht = ht
any-reverse_aux p (c ∷ s) t hs ht =
    let parts = any-cons_false p c s hs in
    any-reverse_aux p s (c ∷ t) parts.1 (any-cons p c t parts.0 ht)

trim_left_solid : (s : Text) → any is_space s ≡ false → trim_left s ≡ s
unfolding trim_left
trim_left_solid [] h = refl
trim_left_solid (c ∷ s) h = rw (trim_left, (any-cons_false is_space c s h).0) refl

pub trim_space_solid : (s : Text) → any is_space s ≡ false → trim_space s ≡ s
unfolding trim_space
trim_space_solid s h =
    ap (λ t. reverse (trim_left (reverse t))) (trim_left_solid s h)
    ∙ ap reverse (trim_left_solid (reverse s) (any-reverse_aux is_space s [] h refl))
    ∙ reverse-reverse s
