-- ===== src/Ignores/Glob.antt =====
-- `globToRegex`: a glob as the text of a regular expression. The loop drops a varying number of
-- units each round, so it runs on fuel; `none` means that the fuel ran out.
pub mod Meaning
use nafir.Base.{
  ℕ, zero, suc, ◌+◌, ◌≤◌, ◌≡◌, Bool, ◌||◌, not, true, false, Option, none, some, List, [], ◌∷◌,
  ◌++◌, map, if◌then◌else◌, ◌==◌, Text, codes, contains, any, index_of, take, drop, length, split,
  join, arith, refl, All, ◌∙◌, ap, append_assoc,
}

-- `/[.+^$()|[\]\\]/`
abbrev pub is_meta : ℕ → Bool
is_meta c = any (c ==◌) (codes ".+^$()|[]\\")

-- `replace(/[.+^$()|[\]\\]/g, '\\$&')`
pub escape : Text → Text
escape [] = []
escape (c ∷ s) = if is_meta c then 92 ∷ c ∷ escape s else c ∷ escape s

-- `if (glob[i] === '/') i += 1` behind a double star.
pub skip_slash : Text → Text
skip_slash [] = []
skip_slash (c ∷ s) = if c == b'/' then s else c ∷ s

abbrev pub alternation : Text → Text
alternation inner = codes "(?:" ++ join (codes "|") (map escape (split b',' inner)) ++ codes ")"

-- The text that one round adds to `re`, and the rest of the glob behind it.
pub star_round : Text → Text × Text
unfolding skip_slash
star_round [] = (codes "[^/]*", [])
star_round (d ∷ s) = if d == b'*' then (codes ".*", skip_slash s) else (codes "[^/]*", d ∷ s)

-- At an opening brace, with the rest of the glob and the place of the next closing brace in it.
pub brace_round : Text → Option ℕ → Text × Text
unfolding escape
brace_round s none = (codes "\\{", s)
brace_round s (some end) = (alternation (take end s), drop (suc end) s)

pub round : ℕ → Text → Text × Text
unfolding star_round brace_round
round c s =
    if c == b'*'
    then star_round s
    else if c == b'?'
    then (codes "[^/]", s)
    else if c == b'{'
    then brace_round s (index_of (codes "}") s)
    else if is_meta c
    then (92 ∷ c ∷ [], s)
    else (c ∷ [], s)

pub glob_loop : ℕ → Text → Text → Option Text
glob_loop f re [] = some re
glob_loop zero re (c ∷ s) = none
glob_loop (suc f) re (c ∷ s) = let (added, rest) = round c s in glob_loop f (re ++ added) rest

unfoldable pub glob_to_regex : Text → Option Text
unfolding glob_loop round
glob_to_regex glob = elim (glob_loop (length glob) (codes "^") glob) [
  | none ↦ none
  | some re ↦ some (re ++ codes "$")
]
