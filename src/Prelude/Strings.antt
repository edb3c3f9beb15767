-- ===== src/Prelude/Strings.antt =====
-- Go strings as lists of code points: equality, `strings.TrimSpace` and `strconv.Atoi`.
use Prim.Native.Nat.{ℕ, zero, suc, ◌+◌, ◌-◌, ◌*◌, ◌^◌}
use Prim.Native.Char.{code}
use Prim.Native.String.{String}
use mathlib.Core.Path.{◌≡◌, refl}
use mathlib.Core.Logic.{◌↔◌}
use mathlib.Core.Bool.{Bool, true, false, ◌&&◌, ◌||◌}
use mathlib.Core.Option.{Option, none, some}
use mathlib.Core.List.{List, [], ◌∷◌, reverse}
use native.Mathlib.Omega.{arith}
use open_music_player.Prelude.Tests.{ltb, leb, ◌==◌, if◌then◌else◌}
use open_music_player.Prelude.Int.{ℤ, pos, negsuc}

abbrev pub Text : Type 0
Text = List ℕ

-- The code points of a literal.
abbrev pub codes : String → Text
codes String.[] = []
codes (String.◌∷◌ c s) = code c ∷ codes s

unfoldable pub text_eq : Text → Text → Bool
text_eq [] [] = true
text_eq [] (d ∷ t) = false
text_eq (c ∷ s) [] = false
text_eq (c ∷ s) (d ∷ t) = c == d && text_eq s t

pub text_eq_iff : (s t : Text) → (text_eq s t ≡ true) ↔ (s ≡ t)
unfolding text_eq
text_eq_iff [] [] = ground arith
text_eq_iff [] (d ∷ t) = ground arith
text_eq_iff (c ∷ s) [] = ground arith
text_eq_iff (c ∷ s) (d ∷ t) = ground (arith, text_eq_iff s t)

pub text_eq_refl : (s : Text) → text_eq s s ≡ true
text_eq_refl s = (text_eq_iff s s).1 refl

pub text_eq_comm : (s t : Text) → text_eq s t ≡ text_eq t s
text_eq_comm s t = ground (arith, text_eq_iff s t, text_eq_iff t s)

-- `unicode.IsSpace`.
unfoldable pub is_space : ℕ → Bool
is_space c =
    (leb 9 c && leb c 13)
    || c == 0x20
    || c == 0x85
    || c == 0xa0
    || c == 0x1680
    || (leb 0x2000 c && leb c 0x200a)
    || c == 0x2028
    || c == 0x2029
    || c == 0x202f
    || c == 0x205f
    || c == 0x3000

unfoldable pub trim_left : Text → Text
trim_left [] = []
trim_left (c ∷ s) = elim (is_space c) [ true ↦ trim_left s | false ↦ c ∷ s ]

-- `strings.TrimSpace`.
unfoldable pub trim_space : Text → Text
unfolding trim_left is_space
trim_space s = reverse (trim_left (reverse (trim_left s)))

unfoldable pub digits_value : Text → ℕ → Option ℕ
digits_value [] n = some n
digits_value (c ∷ s) n =
    let rest = digits_value s (n * 10 + (c - b'0')) in
    if leb b'0' c && leb c b'9' then rest else none

unfoldable pub signed_digits : Text → Bool → Option ℤ
unfolding digits_value
signed_digits [] negative = none
signed_digits (c ∷ s) negative = elim (digits_value (c ∷ s) 0) [
  | none ↦ none
  | some n ↦
      if negative
      then (if leb n (2 ^ 63) then some (negated n) else none)
      else (if ltb n (2 ^ 63) then some (pos n) else none)
]
  where
    negated : ℕ → ℤ
    negated zero = pos 0
    negated (suc n) = negsuc n

-- `strconv.Atoi` on a 64-bit platform; a syntax or range error is `none`.
unfoldable pub atoi : Text → Option ℤ
unfolding signed_digits
atoi [] = none
atoi (c ∷ s) =
    if c == b'-'
    then signed_digits s true
    else if c == b'+'
    then signed_digits s false
    else signed_digits (c ∷ s) false

-- The bytes of a code point in UTF-8.
unfoldable pub rune_length : ℕ → ℕ
rune_length c = if ltb c 0x80 then 1 else if ltb c 0x800 then 2 else if ltb c 0x10000 then 3 else 4

unfoldable pub byte_length : Text → ℕ
unfolding rune_length
byte_length [] = 0
byte_length (c ∷ s) = rune_length c + byte_length s

-- What the code asks of an address that `url.Parse` has read; `query_get` is `Query().Get`.
pub record ParsedUrl : Type 0 where
  pub scheme : Text
  pub has_user : Bool
  pub fragment : Text
  pub host : Text
  pub hostname : Text
  pub path : Text
  pub query_get : Text → Text
