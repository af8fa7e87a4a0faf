-- ===== src/Markup.antt =====
-- The HTML that the design panel of live-browser.js writes: `escapeHtml`, `cssSafe` and the lists of
-- its Markdown (`buildListHtml`).
pub mod Escape
pub mod Lines
pub mod Render
pub mod Nesting
mod Tests
use nafir.Base.{
  ℕ, zero, suc, ◌+◌, ◌-◌, Bool, true, false, not, ◌&&◌, ◌||◌, ◌==◌, List, [], ◌∷◌, ◌++◌,
  if◌then◌else◌, ltb, Text, codes, filter,
}

-- `s.replace(/c/g, by)` for one unit `c`
abbrev pub replace_unit : ℕ → Text → Text → Text
replace_unit c by [] = []
replace_unit c by (x ∷ s) = (if x == c then by else x ∷ []) ++ replace_unit c by s

-- `escapeHtml`, for a string
unfoldable pub escape_html : Text → Text
escape_html s = replace_unit b'\'' (codes "&#39;") (
    replace_unit b'"' (codes "&quot;") (
      replace_unit b'>' (codes "&gt;")
        (replace_unit b'<' (codes "&lt;") (replace_unit b'&' (codes "&amp;") s))))

-- `cssSafe`, for a string
pub css_safe : Text → Text
css_safe s =
    filter
      (λ c.
        not ((c == b'<') || (c == b'>') || (c == b'"') || (c == b'\'') || (c == b'`') || (c == 10)))
      s

-- `listType`
pub data ListType : Type 0 where
  ul ol : ListType

-- An item of a list, with the HTML of its text.
pub record Item : Type 0 where
  pub indent : ℕ
  pub html : Text

-- What `buildListHtml` appends: the tag that opens or closes a list, or an item.
pub data Piece : Type 0 where
  open_list close_list : Piece
  item : Text → Piece

-- `piece.repeat(n)`
abbrev pub repeat : ℕ → Piece → List Piece
repeat zero p = []
repeat (suc n) p = p ∷ repeat n p

-- The loop of `buildListHtml` and what follows it, from the last indent.
abbrev pub build_items : ℕ → List Item → List Piece
build_items last [] = repeat (suc last) close_list
build_items last (it ∷ items) =
    (if ltb last it.indent
      then open_list ∷ []
      else if ltb it.indent last
      then repeat (last - it.indent) close_list
      else [])
    ++ (item it.html ∷ build_items it.indent items)

abbrev pub list_name : ListType → Text
list_name ul = codes "ul"
list_name ol = codes "ol"

abbrev pub print : ListType → List Piece → Text
print type [] = []
print type (open_list ∷ ps) = codes "<" ++ (list_name type ++ (codes ">" ++ print type ps))
print type (close_list ∷ ps) = codes "</" ++ (list_name type ++ (codes ">" ++ print type ps))
print type (item html ∷ ps) = codes "<li>" ++ (html ++ (codes "</li>" ++ print type ps))

abbrev pub list_pieces : List Item → List Piece
list_pieces items = open_list ∷ build_items 0 items

-- `buildListHtml`
abbrev pub build_list_html : List Item → ListType → Text
build_list_html items type = print type (list_pieces items)
