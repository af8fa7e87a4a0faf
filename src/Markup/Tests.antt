-- ===== src/Markup/Tests.antt =====
-- The laws of the panel's HTML at inputs, and a test of a list that is indented by four.
use nafir.Base.{◌≡◌, ◌↔◌, List, [], ◌∷◌, some, none, true, all, refl, codes}
use nafir.Markup.{Item, escape_html, list_pieces, build_list_html, ul}
use nafir.Markup.Escape.{read_from, is_inert, read-escape_html}
use nafir.Markup.Nesting.{still_open, IsGradual, list_pieces-nested_iff}

read-escape_html_example :
    (read_from 0 (escape_html (codes "a < b & c")) ≡ codes "a < b & c")
    × (all is_inert (escape_html (codes "a < b & c")) ≡ true)
read-escape_html_example = read-escape_html (codes "a < b & c")

-- An item, one below it, and one that is as far out as the first.
abbrev nested : List Item
nested =
    record { indent = 0; html = codes "a" }
    ∷ record { indent = 1; html = codes "b" }
    ∷ record { indent = 0; html = codes "c" }
    ∷ []

list_pieces-nested_iff_example : (still_open 0 (list_pieces nested) ≡ some 0) ↔ IsGradual 0 nested
list_pieces-nested_iff_example = list_pieces-nested_iff nested

nested_html : build_list_html nested ul ≡ codes "<ul><li>a</li><ul><li>b</li></ul><li>c</li></ul>"
nested_html = refl

-- The item below is indented by four spaces, which are two steps: one list is opened, two are
-- closed, and the last item stands outside every list.
abbrev by_four : List Item
by_four =
    record { indent = 0; html = codes "a" }
    ∷ record { indent = 2; html = codes "b" }
    ∷ record { indent = 0; html = codes "c" }
    ∷ []

outside : build_list_html by_four ul ≡ codes "<ul><li>a</li><ul><li>b</li></ul></ul><li>c</li></ul>"
outside = refl

not_nested : still_open 0 (list_pieces by_four) ≡ none
not_nested = refl
