-- ===== src/Rows/Tests.antt =====
-- The texts of small elements.
use nafir.Base.{◌≡◌, true, false, [], ◌∷◌, map, refl, codes, Text}
use nafir.Rows.{
  Element, Node, text, other, element, nil, cons, Row, collect_editable_text_rows,
  wrap_mixed_content_text_nodes, unwrap_mixed_content_text_nodes, has_text_rows,
}
use nafir.Rows.Texts.{editable_texts, texts-collect}
use nafir.Rows.Unwrap.{unwrap_mixed_content_text_nodes-wrap_mixed_content_text_nodes}
use nafir.Rows.Offered.{has_any, has_text_rows-collect}

abbrev named : Text → Element
named tag = record { tag = tag; editable = false; own = false; wraps = false }

-- A paragraph with a word in bold type, and a script.
abbrev paragraph : Node
paragraph = element (named (codes "p")) (
    cons (text (codes "one ")) (
      cons (element (named (codes "b")) (cons (text (codes "two")) nil)) (
        cons (text (codes " "))
          (cons (element (named (codes "script")) (cons (text (codes "x")) nil)) nil))))

two_rows :
    collect_editable_text_rows (wrap_mixed_content_text_nodes paragraph)
    ≡ record { place = 0 ∷ []; text = codes "one " }
      ∷ record { place = 1 ∷ []; text = codes "two" }
      ∷ []
unfolding collect_editable_text_rows wrap_mixed_content_text_nodes
two_rows = refl

-- A text beside a comment is offered, but no row is found.
abbrev commented : Node
commented = element (named (codes "p")) (cons (text (codes "one")) (cons other nil))

offered_without_row :
    (has_text_rows commented ≡ true)
    × (collect_editable_text_rows (wrap_mixed_content_text_nodes commented) ≡ [])
unfolding has_text_rows collect_editable_text_rows wrap_mixed_content_text_nodes
offered_without_row = (refl, refl)

texts-collect_example :
    map (λ (r : Row). r.text) (collect_editable_text_rows (wrap_mixed_content_text_nodes paragraph))
    ≡ editable_texts true paragraph
texts-collect_example = texts-collect paragraph refl

unwrap_mixed_content_text_nodes-wrap_mixed_content_text_nodes_example :
    unwrap_mixed_content_text_nodes (wrap_mixed_content_text_nodes paragraph) ≡ paragraph
unwrap_mixed_content_text_nodes-wrap_mixed_content_text_nodes_example =
    unwrap_mixed_content_text_nodes-wrap_mixed_content_text_nodes paragraph refl refl

has_text_rows-collect_example :
    has_text_rows paragraph
    ≡ has_any (collect_editable_text_rows (wrap_mixed_content_text_nodes paragraph))
has_text_rows-collect_example = has_text_rows-collect paragraph refl refl
