-- ===== src/AttributeFilter/Tests.antt =====
-- Runs of custom_components/hass_questdb_writer/attribute_filter.py at small inputs.
use hass_questdb_writer.Prelude.{◌≡◌, refl, false, Option, some, [], ◌∷◌, Text, All, codes, text_eq}
use hass_questdb_writer.AttributeFilter.{is_space, passes, parse_attribute_patterns}
use hass_questdb_writer.AttributeFilter.Patterns.{
  IsPattern, AreDistinct, parse_attribute_patterns_lem,
}

abbrev typed : Option Text
typed = some (codes " temp*, ,unit ,temp*")

typed_patterns : parse_attribute_patterns typed ≡ codes "temp*" ∷ codes "unit" ∷ []
unfolding parse_attribute_patterns is_space
typed_patterns = refl

parse_attribute_patterns_lem_example :
    All IsPattern (parse_attribute_patterns typed) × AreDistinct (parse_attribute_patterns typed)
parse_attribute_patterns_lem_example = parse_attribute_patterns_lem typed

-- A denied name does not pass, though it is allowed too.
denied :
    passes text_eq (record { allow = codes "unit" ∷ []; deny = codes "unit" ∷ [] }) (codes "unit")
    ≡ false
unfolding passes text_eq
denied = refl
