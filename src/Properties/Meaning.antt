-- ===== src/Properties/Meaning.antt =====
-- The meaning of an expression of properties, and what its evaluation grants
-- (diracx-core/src/diracx/core/properties.py).
use diracx.Prelude.{
  String, Bool, true, false, not, ◌&&◌, ◌||◌, ◌≡◌, refl, ap, List, mem, arith, if◌then◌else◌,
}
use diracx.Prelude.Outcome.{ok, err, http_forbidden}
use diracx.Properties.{Expression, property, and_, or_, xor_, invert, xor, evaluate, has_properties}

-- the Boolean that an expression stands for
unfoldable pub meaning : Expression → List String → Bool
meaning (property p) allowed = mem p allowed
meaning (and_ a b) allowed = meaning a allowed && meaning b allowed
meaning (or_ a b) allowed = meaning a allowed || meaning b allowed
meaning (xor_ a b) allowed = xor (meaning a allowed) (meaning b allowed)
meaning (invert a) allowed = not (meaning a allowed)

unfoldable pub has_no_invert : Expression → Bool
has_no_invert (property p) = true
has_no_invert (and_ a b) = has_no_invert a && has_no_invert b
has_no_invert (or_ a b) = has_no_invert a && has_no_invert b
has_no_invert (xor_ a b) = has_no_invert a && has_no_invert b
has_no_invert (invert a) = false

evaluate-low :
    (e : Expression) (allowed : List String) → (evaluate e allowed).low ≡ meaning e allowed
unfolding evaluate meaning
evaluate-low (property p) allowed = refl
evaluate-low (and_ a b) allowed = ground (arith, evaluate-low a allowed, evaluate-low b allowed)
evaluate-low (or_ a b) allowed = ground (arith, evaluate-low a allowed, evaluate-low b allowed)
evaluate-low (xor_ a b) allowed = ground (arith, evaluate-low a allowed, evaluate-low b allowed)
evaluate-low (invert a) allowed = ap not (evaluate-low a allowed)

evaluate-sign :
    (e : Expression) (allowed : List String)
    → has_no_invert e ≡ true
    → (evaluate e allowed).sign ≡ false
unfolding evaluate has_no_invert
evaluate-sign (property p) allowed h = refl
evaluate-sign (and_ a b) allowed h =
    ground (arith, evaluate-sign a allowed, evaluate-sign b allowed)
evaluate-sign (or_ a b) allowed h = ground (arith, evaluate-sign a allowed, evaluate-sign b allowed)
evaluate-sign (xor_ a b) allowed h =
    ground (arith, evaluate-sign a allowed, evaluate-sign b allowed)
evaluate-sign (invert a) allowed h = cc

-- An expression without `~` grants exactly the users for whom it holds as a Boolean expression.
pub has_properties-meaning :
    (e : Expression) (properties : List String)
    → has_no_invert e ≡ true
    → has_properties e properties ≡ (if meaning e properties then ok tt else err http_forbidden)
unfolding has_properties
has_properties-meaning e properties h =
    ground (arith, evaluate-low e properties, evaluate-sign e properties h)

-- Every expression grants at least the users for whom it holds as a Boolean expression.
pub has_properties_complete :
    (e : Expression) (properties : List String)
    → meaning e properties ≡ true
    → has_properties e properties ≡ ok tt
unfolding has_properties
has_properties_complete e properties h = ground (arith, evaluate-low e properties)

-- The inversion of an expression without `~` grants every user, whatever the properties.
pub has_properties-invert :
    (e : Expression) (properties : List String)
    → has_no_invert e ≡ true
    → has_properties (invert e) properties ≡ ok tt
unfolding has_properties evaluate
has_properties-invert e properties h = ground (arith, evaluate-sign e properties h)
