-- ===== src/Base/Strings.antt =====
-- Texts as lists of byte values, with the functions of Go's strings and strconv packages in use.
use Prim.Native.Nat.{ℕ, ◌+◌, ◌-◌, ◌*◌}
use mathlib.Core.Path.{◌≡◌, refl}
use mathlib.Core.Bool.{Bool, true, false, ◌&&◌, ◌||◌}
use mathlib.Core.Option.{Option, none, some}
use mathlib.Core.List.{List, [], ◌∷◌, reverse}
use native.Mathlib.Omega.{arith}
use channeld.Base.Tests.{leb, ◌==◌, if◌then◌else◌}

unfoldable pub str_eq : List ℕ → List ℕ → Bool
str_eq [] [] = true
str_eq [] (d ∷ t) = false
str_eq (c ∷ s) [] = false
str_eq (c ∷ s) (d ∷ t) = c == d && str_eq s t

pub str_eq_self : (s : List ℕ) → str_eq s s ≡ true
unfolding str_eq
str_eq_self [] = refl
str_eq_self (c ∷ s) = ground (arith, str_eq_self s)

pub str_eq-eq : (s t : List ℕ) → str_eq s t ≡ true → s ≡ t
unfolding str_eq
str_eq-eq [] [] h = refl
str_eq-eq [] (d ∷ t) h = ground arith
str_eq-eq (c ∷ s) [] h = ground arith
str_eq-eq (c ∷ s) (d ∷ t) h = ground (arith, str_eq-eq s t)

abbrev with_head : ℕ → List (List ℕ) → List (List ℕ)
with_head c [] = (c ∷ []) ∷ []
with_head c (piece ∷ rest) = (c ∷ piece) ∷ rest

-- `strings.Split(s, sep)` for a separator of one byte: there is always at least one piece.
unfoldable pub split : ℕ → List ℕ → List (List ℕ)
split sep [] = [] ∷ []
split sep (c ∷ s) = let rest = split sep s in if c == sep then [] ∷ rest else with_head c rest

unfoldable pub trim_left : ℕ → List ℕ → List ℕ
trim_left cut [] = []
trim_left cut (c ∷ s) = let rest = trim_left cut s in if c == cut then rest else c ∷ s

-- `strings.Trim(s, cutset)` for a cutset of one byte.
unfoldable pub trim : ℕ → List ℕ → List ℕ
unfolding trim_left
trim cut s = reverse (trim_left cut (reverse (trim_left cut s)))

abbrev is_digit : ℕ → Bool
is_digit c = leb b'0' c && leb c b'9'

unfoldable pub parse_digits : ℕ → List ℕ → Option ℕ
parse_digits acc [] = some acc
parse_digits acc (c ∷ s) =
    let rest = parse_digits (acc * 10 + (c - b'0')) s in if is_digit c then rest else none

abbrev in_u32 : Option ℕ → Option ℕ
in_u32 none = none
in_u32 (some n) = if leb n 4294967295 then some n else none

-- `strconv.ParseUint(s, 10, 32)`, with `none` for its errors.
unfoldable pub parse_uint32 : List ℕ → Option ℕ
unfolding parse_digits
parse_uint32 [] = none
parse_uint32 (c ∷ s) = in_u32 (parse_digits 0 (c ∷ s))

unfoldable pub has_prefix : List ℕ → List ℕ → Bool
has_prefix [] s = true
has_prefix (c ∷ p) [] = false
has_prefix (c ∷ p) (d ∷ s) = c == d && has_prefix p s

-- `strings.Contains(s, part)`.
unfoldable pub str_contains : List ℕ → List ℕ → Bool
unfolding has_prefix
str_contains [] part = has_prefix part []
str_contains (c ∷ s) part = has_prefix part (c ∷ s) || str_contains s part

module _ {ℓ} {V : Type ℓ} where
  unfoldable pub lookup_str : List ℕ → List (List ℕ × V) → Option V
  unfolding str_eq
  lookup_str k [] = none
  lookup_str k ((j, v) ∷ m) = if str_eq j k then some v else lookup_str k m

  unfoldable pub insert_str : List ℕ → V → List (List ℕ × V) → List (List ℕ × V)
  unfolding str_eq
  insert_str k v [] = (k, v) ∷ []
  insert_str k v ((j, w) ∷ m) = if str_eq j k then (k, v) ∷ m else (j, w) ∷ insert_str k v m
