-- ===== src/Dedupe/Examples.antt =====
-- `dedupe` on two values, one of them twice.
use livepeer_gateway_console.Common.{◌≡◌, refl, List, [], ◌∷◌}
use livepeer_gateway_console.Common.Text.{Text, codes}
use livepeer_gateway_console.Dedupe.{
  includes, dedupe, sort_texts, insert_sorted, unique_from, text_leb, lex_leb, utf16_units,
}
use livepeer_gateway_console.Dedupe.Sorted.{IsDistinct, IsSorted, dedupe_lem}

abbrev values : List Text
values = codes "b" ∷ codes "a" ∷ codes "b" ∷ []

dedupe-values : dedupe values ≡ codes "a" ∷ codes "b" ∷ []
unfolding dedupe sort_texts insert_sorted unique_from includes text_leb lex_leb utf16_units
dedupe-values = refl

dedupe_lem_example :
    ((t : Text) → includes (dedupe values) t ≡ includes values t)
    × IsDistinct (dedupe values)
    × IsSorted (dedupe values)
dedupe_lem_example = dedupe_lem values
