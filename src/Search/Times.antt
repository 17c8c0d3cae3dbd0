-- ===== src/Search/Times.antt =====
-- `find_time_resolution` (diracx-db/src/diracx/db/sql/utils/base.py), for ASCII digits.
use Prim.Native.Char.{code}
use diracx.Prelude.{
  ℕ, zero, suc, String, Bool, true, false, ◌&&◌, ◌||◌, Option, none, some, List, [], ◌∷◌, nat_eq,
  leb, if◌then◌else◌,
}
use diracx.Prelude.Text.{append}

pub data Resolution : Type 0 where
  year month day hour minute second : Resolution

abbrev pub is_digit : ℕ → Bool
is_digit c = leb 48 c && leb c 57

-- `\d{n}` and what follows it
unfoldable pub take_digits : ℕ → String → Option (String × String)
take_digits zero s = some ("", s)
take_digits (suc n) String.[] = none
take_digits (suc n) (String.◌∷◌ c s) =
    let rest = take_digits n s in
    if is_digit (code c)
    then elim rest [ none ↦ none | some (d, t) ↦ some (String.◌∷◌ c d, t) ]
    else none

-- a separator and two digits
abbrev pub take_part : (ℕ → Bool) → String → Option (String × String)
take_part is_separator String.[] = none
take_part is_separator (String.◌∷◌ c s) = if is_separator (code c) then take_digits 2 s else none

abbrev pub is_end : String → Bool
is_end String.[] = true
is_end (String.◌∷◌ _ _) = false

-- `\d{0,n}Z?` up to the end
unfoldable pub ends_fraction : ℕ → String → Bool
ends_fraction n String.[] = true
ends_fraction zero (String.◌∷◌ c s) = nat_eq (code c) 90 && is_end s
ends_fraction (suc n) (String.◌∷◌ c s) =
    let rest = ends_fraction n s in
    if is_digit (code c) then rest else nat_eq (code c) 90 && is_end s

-- `\.\d{1,6}Z?` up to the end
abbrev pub is_fraction : String → Bool
is_fraction (String.◌∷◌ c (String.◌∷◌ d s)) =
    nat_eq (code c) 46 && is_digit (code d) && ends_fraction 5 s
is_fraction _ = false

-- a part of the pattern: its separator, how it is written in the result, and its resolution
pub record Part : Type 0 where
  pub is_separator : ℕ → Bool
  pub separator : String
  pub resolution : Resolution

abbrev pub part : ℕ → String → Resolution → Part
part c s r = record { is_separator = nat_eq c; separator = s; resolution = r }

-- the parts that may follow the year
abbrev pub parts : List Part
parts =
    part 45 "-" month
    ∷ part 45 "-" day
    ∷ record { is_separator = λ c. nat_eq c 32 || nat_eq c 84; separator = " "; resolution = hour }
    ∷ part 58 ":" minute
    ∷ part 58 ":" second
    ∷ []

-- the match from a part on, with what stands before it
unfoldable pub match_parts : Resolution → String → List Part → String → Option (Resolution × String)
unfolding take_digits ends_fraction
match_parts r acc _ String.[] = some (r, acc)
match_parts r acc [] (String.◌∷◌ c s) = if is_fraction (String.◌∷◌ c s) then some (r, acc) else none
match_parts r acc (p ∷ ps) (String.◌∷◌ c s) = elim (take_part p.is_separator (String.◌∷◌ c s)) [
  | none ↦ none
  | some (d, t) ↦ match_parts p.resolution (append acc (append p.separator d)) ps t
]

-- the resolution of a text with the text up to it, and `none` where no match raises
unfoldable pub find_time_resolution : String → Option (Resolution × String)
unfolding match_parts
find_time_resolution value = elim (take_digits 4 value) [
  | none ↦ none
  | some (d, t) ↦ match_parts year d parts t
]
