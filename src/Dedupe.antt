-- ===== src/Dedupe.antt =====
-- src/service/routing/index.ts: `dedupe`, which sorts the capabilities and offerings of a row, each
-- once, by the UTF-16 units that the default order of `sort` compares.
pub mod Sorted
pub mod Examples
use livepeer_gateway_console.Common.{
  ℕ, zero, suc, ◌+◌, ◌-◌, ◌/◌, ◌%◌, Bool, true, false, not, ◌&&◌, ◌||◌, Option, none, some, List,
  [], ◌∷◌, ◌++◌, map, keep, head?, ltb, leb, ◌==◌, if◌then◌else◌,
}
use livepeer_gateway_console.Common.Text.{Text, text_eq}

-- `values.includes(v)`
unfoldable pub includes : List Text → Text → Bool
includes [] v = false
includes (x ∷ xs) v = text_eq x v || includes xs v

-- `[...new Set(values)]`: each value where it first stands.
unique_from : List Text → List Text → List Text
unique_from seen [] = []
unique_from seen (v ∷ vs) =
    let first_time = v ∷ unique_from (v ∷ seen) vs in
    let old = unique_from seen vs in if includes seen v then old else first_time

-- The UTF-16 units of a text, by which `sort` compares.
unfoldable pub utf16_units : Text → List ℕ
utf16_units [] = []
utf16_units (c ∷ s) =
    if leb 0x10000 c
    then (0xd800 + (c - 0x10000) / 1024) ∷ (0xdc00 + (c - 0x10000) % 1024) ∷ utf16_units s
    else c ∷ utf16_units s

lex_leb : List ℕ → List ℕ → Bool
lex_leb [] ts = true
lex_leb (s ∷ ss) [] = false
lex_leb (s ∷ ss) (t ∷ ts) = ltb s t || ((s == t) && lex_leb ss ts)

pub text_leb : Text → Text → Bool
unfolding lex_leb utf16_units
text_leb s t = lex_leb (utf16_units s) (utf16_units t)

insert_sorted : Text → List Text → List Text
insert_sorted x [] = x ∷ []
insert_sorted x (y ∷ ys) =
    let rest = insert_sorted x ys in if text_leb x y then x ∷ y ∷ ys else y ∷ rest

-- `values.sort()`
sort_texts : List Text → List Text
sort_texts [] = []
sort_texts (x ∷ xs) = insert_sorted x (sort_texts xs)

pub dedupe : List Text → List Text
dedupe values = sort_texts (unique_from [] values)
