-- ===== src/Markup/Render/Tests.antt =====
-- The blocks of small texts.
use nafir.Base.{◌≡◌, Bool, true, false, List, [], ◌∷◌, refl, codes, Text}
use nafir.Markup.{ul, ol}
use nafir.Markup.Lines.{is_fence, is_blank_line, is_rule, heading_of, entry_of, spaced_text}
use nafir.Markup.Render.{
  paragraph, listing, heading, rule, code_block, blocks, on_lines, on_line, on_fence, finish,
  flush_para, flush_list,
}
use nafir.Markup.Render.Kept.{blocks-kept}
use nafir.Markup.Render.Kept.Contents.{
  Content, of_paragraph, of_list, of_heading, of_rule, of_code, count, all_contents, kept,
}

abbrev page : List Text
page =
    codes "# Colors"
    ∷ codes "one"
    ∷ codes "two"
    ∷ codes "***"
    ∷ codes "- red"
    ∷ codes "  - dark"
    ∷ codes "1. blue"
    ∷ codes "```css"
    ∷ codes "# no heading"
    ∷ []

page_blocks :
    blocks page
    ≡ heading 1 (codes "Colors")
      ∷ paragraph (codes "one" ∷ codes "two" ∷ [])
      ∷ rule
      ∷ listing ul (
          record { type = ul; indent = 0; text = codes "red" }
          ∷ record { type = ul; indent = 1; text = codes "dark" }
          ∷ [])
      ∷ listing ol (record { type = ol; indent = 0; text = codes "blue" } ∷ [])
      ∷ code_block (codes "# no heading" ∷ [])
      ∷ []
unfolding blocks on_lines on_line on_fence finish flush_para flush_list is_fence is_blank_line
    is_rule heading_of entry_of spaced_text
page_blocks = refl

-- A text behind an item, with no blank line between them, is written in front of the list.
text_comes_first :
    blocks (codes "- red" ∷ codes "and dark" ∷ [])
    ≡ paragraph (codes "and dark" ∷ [])
      ∷ listing ul (record { type = ul; indent = 0; text = codes "red" } ∷ [])
      ∷ []
unfolding blocks on_lines on_line on_fence finish flush_para flush_list is_fence is_blank_line
    is_rule heading_of entry_of spaced_text
text_comes_first = refl

abbrev is_item : Content → Bool
is_item (of_list type indent text) = true
is_item (of_paragraph text) = false
is_item (of_heading n text) = false
is_item of_rule = false
is_item (of_code text) = false

blocks-kept_example : count is_item (all_contents (blocks page)) ≡ count is_item (kept false page)
blocks-kept_example = blocks-kept is_item page
