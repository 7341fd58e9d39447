-- ===== src/Translation/Tests.antt =====
-- A message with a value that looks like a placeholder, and a language without the key.
use kiro_reverse_api.Prelude.{ℕ, ◌≡◌, refl, List, [], ◌∷◌, none, some, All}
use kiro_reverse_api.Text.{Text, codes}
use kiro_reverse_api.Translation.{
  Dict, Catalog, en, zh, vi, pt_br, intl_locale, plural_category, candidates, lookup,
  namespaced_key, translate, match_lang, get_initial_lang,
}
use kiro_reverse_api.Translation.Interpolation.{TParams, replace_from, interpolate}
use kiro_reverse_api.Translation.Pieces.{
  Piece, plain, hole, IsPiece, written, filled, interpolate_pieces,
}

translation_runs : Unit {0}
unfolding translate lookup candidates plural_category intl_locale interpolate replace_from
    namespaced_key match_lang get_initial_lang
translation_runs = tt

abbrev params : TParams
params = record {
  values = (codes "n", codes "{x}") ∷ (codes "count", codes "2") ∷ [];
  count = some 2;
}

abbrev pieces : List Piece
pieces = plain (codes "Add ") ∷ hole (codes "n") ∷ plain (codes " of ") ∷ hole (codes "x") ∷ []

interpolates :
    interpolate (codes "Add {n} of {x} {{n}}{") (some params) ≡ codes "Add {x} of {x} {{x}}{"
unfolding translation_runs
interpolates = refl

pieces-IsPiece : All IsPiece pieces
pieces-IsPiece = (refl, ((refl, refl), (refl, ((refl, refl), tt))))

interpolate_pieces_example :
    interpolate (written pieces) (some params) ≡ filled (params.values) pieces
interpolate_pieces_example = interpolate_pieces params pieces pieces-IsPiece

abbrev english : Dict
english = (codes "added_other", codes "{count} added") ∷ []

abbrev catalog : Catalog
catalog en ns = some english
catalog zh ns = some []
catalog vi ns = none
catalog pt_br ns = none

abbrev plural : Text → ℕ → Text
plural locale n = codes "other"

falls_back :
    (translate plural catalog zh (codes "common") (codes "accounts:added") (some params)
      ≡ codes "2 added")
    × (translate plural catalog vi (codes "common") (codes "gone") none ≡ codes "gone")
unfolding translation_runs
falls_back = (refl, refl)

abbrev lower : Text → Text
lower s = s

starts_in : get_initial_lang lower (some (codes "xx")) (codes "fr-FR" ∷ codes "pt-PT" ∷ []) ≡ pt_br
unfolding translation_runs
starts_in = refl
