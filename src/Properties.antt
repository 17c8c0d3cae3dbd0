-- ===== src/Properties.antt =====
-- Expressions of security properties (diracx-core/src/diracx/core/properties.py).
pub mod Meaning
mod Tests
use diracx.Prelude.{String, Bool, true, false, not, ◌&&◌, ◌||◌, List, mem, if◌then◌else◌}
use diracx.Prelude.Text.{append}
use diracx.Prelude.Outcome.{Result, ok, err, http_forbidden}
use diracx.Prelude.Result.{require}

-- `UnevaluatedProperty` and `UnevaluatedExpression`, with the operator as the constructor.
pub data Expression : Type 0 where
  property : String → Expression
  and_ or_ xor_ : Expression → Expression → Expression
  invert : Expression → Expression

-- A Python integer in two's complement, of which all bits but the lowest are equal: 0 and 1, the values of a
-- `bool`, and -2 and -1, their inversions. The bitwise operators stay among them.
pub record Value : Type 0 where
  pub low : Bool
  pub sign : Bool

abbrev pub xor : Bool → Bool → Bool
xor true b = not b
xor false b = b

abbrev pub of_bool : Bool → Value
of_bool b = record { low = b; sign = false }

abbrev pub bitwise : (Bool → Bool → Bool) → Value → Value → Value
bitwise f v w = record { low = f v.low w.low; sign = f v.sign w.sign }

-- `operator.__invert__`
abbrev pub bitwise_not : Value → Value
bitwise_not v = record { low = not v.low; sign = not v.sign }

-- `bool(v)`: every integer but 0
abbrev pub is_true : Value → Bool
is_true v = v.low || v.sign

-- `__call__`
unfoldable pub evaluate : Expression → List String → Value
evaluate (property p) allowed = of_bool (mem p allowed)
evaluate (and_ a b) allowed = bitwise (λ x y. x && y) (evaluate a allowed) (evaluate b allowed)
evaluate (or_ a b) allowed = bitwise (λ x y. x || y) (evaluate a allowed) (evaluate b allowed)
evaluate (xor_ a b) allowed = bitwise xor (evaluate a allowed) (evaluate b allowed)
evaluate (invert a) allowed = bitwise_not (evaluate a allowed)

-- `__str__`
unfoldable pub to_string : Expression → String
to_string (property p) = p
to_string (and_ a b) = append "(" (append (to_string a) (append " & " (append (to_string b) ")")))
to_string (or_ a b) = append "(" (append (to_string a) (append " | " (append (to_string b) ")")))
to_string (xor_ a b) = append "(" (append (to_string a) (append " ^ " (append (to_string b) ")")))
to_string (invert a) = append "~" (to_string a)

-- the dependency of a route: `require_property` of `has_properties`
unfoldable pub has_properties : Expression → List String → Result (Unit {0})
unfolding evaluate
has_properties expression properties =
    require (is_true (evaluate expression properties)) http_forbidden
