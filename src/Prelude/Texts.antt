-- ===== src/Prelude/Texts.antt =====
-- Lists of texts.
use Prim.Native.Nat.{Ordering}
use Prim.Native.String.{String, compare}
use mathlib.Core.List.{List, [], ◌∷◌}
use mathlib.Core.Bool.{not}
use text.Mathlib.Text.{◌==◌ as str_eq}
use civitas.Prelude.Lists.{select}

-- `sort` of texts, by their code units where all are in the basic plane.
abbrev insert_text : String → List String → List String
insert_text s [] = s ∷ []
insert_text s (t ∷ ts) = elim (compare s t) [ Ordering.gt ↦ t ∷ insert_text s ts | _ ↦ s ∷ t ∷ ts ]

unfoldable pub sort_texts : List String → List String
sort_texts [] = []
sort_texts (s ∷ ts) = insert_text s (sort_texts ts)

-- `[...new Set(texts)]`
unfoldable pub distinct : List String → List String
unfolding select
distinct [] = []
distinct (s ∷ ss) = s ∷ select (λ t. not (str_eq t s)) (distinct ss)
