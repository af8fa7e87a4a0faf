-- ===== src/Markup/Render/Kept/Contents.antt =====
-- What the blocks of a text have in them, and what its lines say.
use nafir.Base.{
  ℕ, ◌+◌, ◌≡◌, Bool, not, Option, none, some, List, [], ◌∷◌, ◌++◌, map, if◌then◌else◌, Text, arith,
}
use nafir.Markup.{ListType}
use nafir.Markup.Lines.{is_fence, is_blank_line, is_rule, heading_of, Entry, entry_of}
use nafir.Markup.Render.{Block, paragraph, listing, heading, rule, code_block}

-- What stands in a block.
pub data Content : Type 0 where
  of_paragraph : Text → Content
  of_list : ListType → ℕ → Text → Content
  of_heading : ℕ → Text → Content
  of_rule : Content
  of_code : Text → Content

abbrev pub of_entry : ListType → Entry → Content
of_entry type e = of_list type e.indent e.text

abbrev pub contents : Block → List Content
contents (paragraph ts) = map of_paragraph ts
contents (listing type es) = map (of_entry type) es
contents (heading n t) = of_heading n t ∷ []
contents rule = of_rule ∷ []
contents (code_block ts) = map of_code ts

abbrev pub all_contents : List Block → List Content
all_contents [] = []
all_contents (b ∷ bs) = contents b ++ all_contents bs

-- What a line says by itself: outside of code, and in a text, of which only the fences tell where
-- code is.
abbrev pub said_by_entry : Text → Option Entry → List Content
said_by_entry line none = of_paragraph line ∷ []
said_by_entry line (some e) = of_entry e.type e ∷ []

abbrev pub said_by_heading : Text → Option (ℕ × Text) → List Content
said_by_heading line (some (level, text)) = of_heading level text ∷ []
said_by_heading line none = said_by_entry line (entry_of line)

abbrev pub said : Text → List Content
said line =
    if is_blank_line line
    then []
    else if is_rule line
    then of_rule ∷ []
    else said_by_heading line (heading_of line)

abbrev pub kept : Bool → List Text → List Content
kept in_code [] = []
kept in_code (line ∷ lines) =
    let toggled = kept (not in_code) lines in
    let rest = kept in_code lines in
    if is_fence line then toggled else (if in_code then of_code line ∷ [] else said line) ++ rest

-- How many of the contents pass a test.
abbrev pub count : (Content → Bool) → List Content → ℕ
count q [] = 0
count q (c ∷ cs) = (if q c then 1 else 0) + count q cs

pub count-append :
    (q : Content → Bool) (a b : List Content) → count q (a ++ b) ≡ count q a + count q b
count-append q [] b = omega arith
count-append q (c ∷ a) b = omega (arith, count-append q a b)

pub count-out :
    (q : Content → Bool) (bs : List Block) (b : Block)
    → count q (all_contents (bs ++ b ∷ [])) ≡ count q (all_contents bs) + count q (contents b)
count-out q [] b = omega (arith, count-append q (contents b) [])
count-out q (x ∷ bs) b = omega (
  arith,
  count-append q (contents x) (all_contents (bs ++ b ∷ [])),
  count-append q (contents x) (all_contents bs),
  count-out q bs b,
)

pub count-map :
    {A : Type 0} (q : Content → Bool) (f : A → Content) (xs : List A) (x : A)
    → count q (map f (xs ++ x ∷ [])) ≡ count q (map f xs) + count q (f x ∷ [])
count-map q f [] x = omega arith
count-map q f (y ∷ xs) x = omega (arith, count-map q f xs x)
