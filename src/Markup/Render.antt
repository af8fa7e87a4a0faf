-- ===== src/Markup/Render.antt =====
-- `renderMarkdown` of live-browser.js: its loop over the lines, and the blocks that it writes.
pub mod Kept
mod Tests
use nafir.Base.{
  ℕ, Bool, true, false, not, ◌&&◌, Option, none, some, List, [], ◌∷◌, ◌++◌, map, if◌then◌else◌,
  Text, codes, join,
}
use nafir.Markup.{ListType, ul, ol, Item, build_list_html, escape_html}
use nafir.Markup.Lines.{is_fence, is_blank_line, is_rule, heading_of, Entry, entry_of}

-- What one push to `out` writes.
pub data Block : Type 0 where
  paragraph : List Text → Block
  listing : ListType → List Entry → Block
  heading : ℕ → Text → Block
  rule : Block
  code_block : List Text → Block

-- The variables of the loop; `out` is in the order of its pushes.
pub record Rendering : Type 0 where
  pub in_code : Bool
  pub code_buf : List Text
  pub para_buf : List Text
  pub list_buf : List Entry
  pub list_type : Option ListType
  pub out : List Block

abbrev pub start : Rendering
start = record {
  in_code = false;
  code_buf = [];
  para_buf = [];
  list_buf = [];
  list_type = none;
  out = [];
}

abbrev pub some_of : {A : Type 0} → List A → Bool
some_of [] = false
some_of (x ∷ xs) = true

abbrev pub push : Block → Rendering → Rendering
push b t = record t { out = t.out ++ b ∷ [] }

unfoldable pub flush_para : Rendering → Rendering
flush_para t =
    if some_of t.para_buf
    then record t { out = t.out ++ paragraph t.para_buf ∷ []; para_buf = [] }
    else t

-- A list that is not empty has a type.
abbrev pub type_or_ul : Option ListType → ListType
type_or_ul none = ul
type_or_ul (some type) = type

unfoldable pub flush_list : Rendering → Rendering
flush_list t =
    if some_of t.list_buf
    then record t {
      out = t.out ++ listing (type_or_ul t.list_type) t.list_buf ∷ [];
      list_buf = [];
      list_type = none;
    }
    else t

abbrev pub flush_all : Rendering → Rendering
flush_all t = flush_list (flush_para t)

abbrev pub same_type : ListType → ListType → Bool
same_type ul ul = true
same_type ol ol = true
same_type ul ol = false
same_type ol ul = false

-- `if (listType && listType !== t) flushList()`
abbrev pub before_entry : ListType → Option ListType → Rendering → Rendering
before_entry type none t = t
before_entry type (some own) t = if same_type own type then t else flush_list t

abbrev pub add_entry : Entry → Rendering → Rendering
add_entry e t = record t { list_type = some e.type; list_buf = t.list_buf ++ e ∷ [] }

-- A line that is no heading: an item of a list, or text.
abbrev pub item_or_text : Text → Option Entry → Rendering → Rendering
item_or_text line none t = record t { para_buf = t.para_buf ++ line ∷ [] }
item_or_text line (some e) t =
    let u = flush_para t in add_entry e (before_entry e.type u.list_type u)

abbrev pub heading_or_other : Text → Option (ℕ × Text) → Rendering → Rendering
heading_or_other line (some (level, text)) t = push (heading level text) (flush_all t)
heading_or_other line none t = item_or_text line (entry_of line) t

unfoldable pub on_fence : Rendering → Rendering
on_fence t =
    if not t.in_code
    then record (flush_all t) { in_code = true; code_buf = [] }
    else record t { out = t.out ++ code_block t.code_buf ∷ []; in_code = false }

-- The body of the loop.
unfoldable pub on_line : Text → Rendering → Rendering
on_line line t =
    if is_fence line
    then on_fence t
    else if t.in_code
    then record t { code_buf = t.code_buf ++ line ∷ [] }
    else if is_blank_line line
    then flush_all t
    else if is_rule line
    then push rule (flush_all t)
    else heading_or_other line (heading_of line) t

unfoldable pub on_lines : List Text → Rendering → Rendering
on_lines [] t = t
on_lines (line ∷ lines) t = on_lines lines (on_line line t)

unfoldable pub finish : Rendering → List Block
finish t =
    let u = flush_all t in
    if u.in_code && some_of u.code_buf then u.out ++ code_block u.code_buf ∷ [] else u.out

-- The blocks of a text with these lines.
unfoldable pub blocks : List Text → List Block
blocks lines = finish (on_lines lines start)

-- The HTML of a block, for what `inlineMd` makes of a text and the digits of a level.
abbrev pub print_block : (Text → Text) → (ℕ → Text) → Block → Text
print_block inline show (paragraph ts) =
    codes "<p>" ++ (inline (join (codes " ") ts) ++ codes "</p>")
print_block inline show (listing type es) =
    build_list_html (map (λ (e : Entry). record { indent = e.indent; html = inline e.text }) es)
      type
print_block inline show (heading n t) =
    codes "<h" ++ (show n ++ (codes ">" ++ (inline t ++ (codes "</h" ++ (show n ++ codes ">")))))
print_block inline show rule = codes "<hr />"
print_block inline show (code_block ts) =
    codes "<pre><code>" ++ (escape_html (join (10 ∷ []) ts) ++ codes "</code></pre>")

-- `renderMarkdown` of the lines
abbrev pub render_lines : (Text → Text) → (ℕ → Text) → List Text → Text
render_lines inline show lines = join (10 ∷ []) (map (print_block inline show) (blocks lines))
