-- ===== src/Markup/Lines.antt =====
-- The lines of Markdown as `renderMarkdown` of live-browser.js tells them apart.
use nafir.Base.{
  span, is_digit, ℕ, ◌/◌, Bool, not, ◌&&◌, ◌||◌, ◌==◌, Option, none, some, [], ◌∷◌, if◌then◌else◌,
  leb, Text, codes, is_empty, is_space, starts_with, drop, length, all,
}
use nafir.Markup.{ListType, ul, ol}

-- `\w`, and `.`, which no end of a line is.
abbrev pub is_word : ℕ → Bool
is_word c = is_digit c || (leb b'a' c && leb c b'z') || (leb b'A' c && leb c b'Z') || (c == b'_')

abbrev pub is_dot : ℕ → Bool
is_dot c = not ((c == 10) || (c == 13) || (c == 8232) || (c == 8233))

-- `/^```(\w*)\s*$/`
unfoldable pub is_fence : Text → Bool
is_fence line = starts_with line (codes "```") && all is_space (span is_word (drop 3 line)).1

-- `line.trim() === ''`
unfoldable pub is_blank_line : Text → Bool
is_blank_line line = all is_space line

-- `c` at least three times, and white space.
abbrev pub is_run : ℕ → Text → Bool
is_run c s = let (run, rest) = span (λ x. x == c) s in leb 3 (length run) && all is_space rest

-- `/^\s*(?:---+|\*\*\*+)\s*$/`
unfoldable pub is_rule : Text → Bool
is_rule line = let (indent, s) = span is_space line in is_run b'-' s || is_run b'*' s

abbrev pub last_space : Text → Option Text
last_space [] = none
last_space (c ∷ []) = none
last_space (c ∷ d ∷ []) = if is_dot d then some (d ∷ []) else none
last_space (c ∷ d ∷ e ∷ s) = last_space (d ∷ e ∷ s)

abbrev pub behind_spaces : Text → Text → Option Text
behind_spaces [] rest = none
behind_spaces (c ∷ s) [] = last_space (c ∷ s)
behind_spaces (c ∷ s) (d ∷ rest) = if all is_dot (d ∷ rest) then some (d ∷ rest) else none

-- What `(.+)` takes in `\s+(.+)$`: behind all white space, or the last of it if nothing is there.
unfoldable pub spaced_text : Text → Option Text
spaced_text s = let (spaces, rest) = span is_space s in behind_spaces spaces rest

-- The level and the text of a heading, `/^(#{1,4})\s+(.+)$/`.
abbrev pub at_level : ℕ → Option Text → Option (ℕ × Text)
at_level n none = none
at_level n (some t) = some (n, t)

unfoldable pub heading_of : Text → Option (ℕ × Text)
heading_of line =
    let (hashes, rest) = span (λ x. x == b'#') line in
    if leb 1 (length hashes) && leb (length hashes) 4
    then at_level (length hashes) (spaced_text rest)
    else none

-- An item of a list: its type, its indent and its text.
pub record Entry : Type 0 where
  pub type : ListType
  pub indent : ℕ
  pub text : Text

abbrev pub entry : ListType → Text → Option Text → Option Entry
entry type indent none = none
entry type indent (some t) = some (record { type = type; indent = length indent / 2; text = t })

-- `/^(\s*)([-*])\s+(.+)$/` behind the white space
abbrev pub bullet : Text → Text → Option Entry
bullet indent [] = none
bullet indent (c ∷ s) = if (c == b'-') || (c == b'*') then entry ul indent (spaced_text s) else none

-- `/^(\s*)(\d+)\.\s+(.+)$/` behind the digits
abbrev pub ordered : Text → Text → Text → Option Entry
ordered indent digits [] = none
ordered indent digits (c ∷ s) =
    if (c == b'.') && not (is_empty digits) then entry ol indent (spaced_text s) else none

abbrev pub or_entry : Option Entry → Option Entry → Option Entry
or_entry (some e) other = some e
or_entry none other = other

unfoldable pub entry_of : Text → Option Entry
entry_of line =
    let (indent, s) = span is_space line in
    let (digits, rest) = span is_digit s in or_entry (bullet indent s) (ordered indent digits rest)
