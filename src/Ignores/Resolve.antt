-- ===== src/Ignores/Resolve.antt =====
-- `normalizeIgnoreRule`, `normalizeIgnoreValue`, `matchesScope` and `resolveDetectIgnores`.
pub mod Rules
use nafir.Base.{
  ℕ, ◌≡◌, Bool, ◌||◌, ◌&&◌, not, true, false, Option, none, some, List, [], ◌∷◌, ◌++◌, map,
  if◌then◌else◌, ◌==◌, Text, codes, contains, add, is_empty, is_space, filter, any, text_eq, trim,
  length,
}
use mathlib.Core.List.{reverse}
use nafir.Value.{Value, property, as_array, as_string, text_or_empty}
use nafir.Ignores.Engine.{Engine}
use nafir.Ignores.Glob.{glob_to_regex}
use nafir.Ignores.Page.{strings, page_candidates}

unfoldable pub normalize_ignore_rule : Engine → Option Value → Text
normalize_ignore_rule e rule = e.lower (trim (text_or_empty rule))

abbrev is_quote : ℕ → Bool
is_quote c = (c == 34) || (c == 39)

strip_first : Text → Text
strip_first [] = []
strip_first (c ∷ s) = if is_quote c then s else c ∷ s

-- `replace(/^["']|["']$/g, '')`
strip_quotes : Text → Text
unfolding strip_first
strip_quotes s = reverse (strip_first (reverse (strip_first s)))

-- `replace(/\+/g, ' ')`
plus_to_space : Text → Text
plus_to_space = map (λ c. if c == b'+' then 32 else c)

-- `replace(/\s+/g, ' ')`; the flag says that the unit before was white space.
collapse : Bool → Text → Text
collapse after_space [] = []
collapse after_space (c ∷ s) =
    let rest = collapse (is_space c) s in
    if is_space c then (if after_space then rest else 32 ∷ rest) else c ∷ rest

unfoldable pub normalize_ignore_value : Engine → Option Value → Text
unfolding strip_quotes plus_to_space collapse
normalize_ignore_value e value =
    e.lower (collapse false (plus_to_space (strip_quotes (trim (text_or_empty value)))))

-- One glob against all candidates; a glob that makes no regular expression is skipped.
glob_matches : Option (Text → Bool) → List Text → Bool
glob_matches none candidates = false
glob_matches (some test) candidates = any test candidates

compiled : Engine → Option Text → Option (Text → Bool)
compiled e none = none
compiled e (some source) = e.regexp source

unfoldable pub matches_scope : Engine → List Text → List Text → Bool
unfolding glob_matches compiled
matches_scope e globs candidates =
    any (λ glob. glob_matches (compiled e (glob_to_regex glob)) candidates) globs

-- `typeof glob === 'string' && glob.trim()`
abbrev pub globs_of : Option Value → List Text
globs_of v = filter (λ glob. not (is_empty (trim glob))) (strings (as_array v))

abbrev pub own_file : Option Value → List Text
own_file (some (Value.str file)) = if is_empty (trim file) then [] else trim file ∷ []
own_file _ = []

-- One entry of `ignoreValues`, read.
pub record Entry : Type 0 where
  pub rule : Text
  pub value : Text
  pub files : List Text

pub read_entry : Engine → Value → Entry
read_entry e entry = record {
  rule = normalize_ignore_rule e (property (codes "rule") entry);
  value = normalize_ignore_value e (property (codes "value") entry);
  files = own_file (property (codes "file") entry) ++ globs_of (property (codes "files") entry);
}

pub record Ignores : Type 0 where
  pub disabled_rules : List Text
  pub disabled_values : List (Text × Text)
  pub skip_scan : Bool

abbrev pub is_star : Text → Bool
is_star value = text_eq value (codes "*")

abbrev pub in_scope : Engine → List Text → Entry → Bool
in_scope e candidates entry = matches_scope e entry.files candidates

-- The body of the loop over `ignoreValues`.
unfoldable pub apply_entry : Engine → List Text → Entry → Ignores → Ignores
apply_entry e candidates entry acc =
    if is_empty entry.rule || is_empty entry.value
    then acc
    else if is_star entry.value
    then (if not (length entry.files == 0) && in_scope e candidates entry
        then record acc { disabled_rules = add acc.disabled_rules entry.rule }
        else acc)
    else if not (length entry.files == 0) && not (in_scope e candidates entry)
    then acc
    else record acc { disabled_values = acc.disabled_values ++ (entry.rule, entry.value) ∷ [] }

unfoldable pub apply_entries : Engine → List Text → List Entry → Ignores → Ignores
apply_entries e candidates [] acc = acc
apply_entries e candidates (entry ∷ entries) acc =
    apply_entries e candidates entries (apply_entry e candidates entry acc)

-- `new Set(…)` of the normalized rules that are not empty.
add_all : List Text → List Text → List Text
add_all seen [] = seen
add_all seen (x ∷ xs) = add_all (add seen x) xs

unfoldable pub project_rules : Engine → Option Value → List Text
unfolding add_all
project_rules e v = add_all [] (
    filter (λ rule. not (is_empty rule))
      (map (λ rule. normalize_ignore_rule e (some (Value.str rule))) (strings (as_array v))))

-- `ignores` in whatever shape it arrived; an entry that is no object has no rule, and is passed
-- over.
unfoldable pub resolve_detect_ignores : Engine → Value → Text → Ignores
unfolding apply_entries apply_entry project_rules read_entry
resolve_detect_ignores e config pathname =
    let candidates =
      page_candidates e pathname (as_array (property (codes "roots") config))
        (as_array (property (codes "pageFiles") config)) in
    if matches_scope e (globs_of (property (codes "ignoreFiles") config)) candidates
    then record { disabled_rules = []; disabled_values = []; skip_scan = true }
    else apply_entries e candidates
        (map (read_entry e) (as_array (property (codes "ignoreValues") config)))
        (record {
          disabled_rules = project_rules e (property (codes "ignoreRules") config);
          disabled_values = [];
          skip_scan = false;
        })
