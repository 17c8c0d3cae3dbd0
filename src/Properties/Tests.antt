-- ===== src/Properties/Tests.antt =====
-- Evaluations of expressions of properties.
use diracx.Prelude.{◌≡◌, refl, [], ◌∷◌, if◌then◌else◌}
use diracx.Prelude.Outcome.{ok, err, http_forbidden}
use diracx.Properties.{Expression, property, and_, or_, invert, has_properties, to_string}
use diracx.Properties.Meaning.{
  meaning, has_no_invert, has_properties-meaning, has_properties_complete, has_properties-invert,
}

abbrev user_or_pilot : Expression
user_or_pilot = or_ (property "NormalUser") (property "GenericPilot")

has_properties-meaning_example :
    has_properties user_or_pilot ("NormalUser" ∷ [])
    ≡ (if meaning user_or_pilot ("NormalUser" ∷ []) then ok tt else err http_forbidden)
unfolding has_no_invert
has_properties-meaning_example = has_properties-meaning user_or_pilot ("NormalUser" ∷ []) refl

has_properties_complete_example :
    has_properties (and_ (property "NormalUser") (invert (property "Operator"))) ("NormalUser" ∷ [])
    ≡ ok tt
unfolding meaning
has_properties_complete_example =
    has_properties_complete (and_ (property "NormalUser") (invert (property "Operator")))
      ("NormalUser" ∷ []) refl

has_properties-invert_example : has_properties (invert user_or_pilot) ("NormalUser" ∷ []) ≡ ok tt
unfolding has_no_invert
has_properties-invert_example = has_properties-invert user_or_pilot ("NormalUser" ∷ []) refl

to_string-example :
    to_string (and_ (property "NormalUser") (invert (property "Operator")))
    ≡ "(NormalUser & ~Operator)"
unfolding to_string
to_string-example = refl
