-- ===== src/Ignores/Tests.antt =====
-- The laws of the waivers at inputs, with an engine that knows a few regular expressions.
use nafir.Base.{
  ◌≡◌, ◌||◌, ◌&&◌, false, some, List, [], ◌∷◌, ◌++◌, map, Text, codes, contains, any, text_eq,
  split, trim, refl,
}
use nafir.Value.{Value, str, arr, obj, end, field, property, items, text_or_empty}
use nafir.Ignores.Engine.{Engine}
use nafir.Ignores.Glob.{glob_to_regex}
use nafir.Ignores.Glob.Meaning.{Translates, glob_to_regex-Translates}
use nafir.Ignores.Page.{page_path, segments, page_candidates, strings}
use nafir.Ignores.Page.Other.{IsIdentity}
use nafir.Ignores.Page.Identity.{Distinct, suffix_paths, page_candidates_iff}
use nafir.Ignores.Resolve.{
  resolve_detect_ignores, matches_scope, project_rules, normalize_ignore_value,
  normalize_ignore_rule,
}
use nafir.Ignores.Resolve.Rules.{waives_rule, candidates_of, entries_of, rules-resolve}

-- No case folding, no escapes, and `.` and `*` of no meaning but in `^.*$`.
abbrev engine : Engine
engine = record {
  lower = λ t. t;
  decode_uri = λ t. some t;
  regexp = λ source.
      some (λ t. text_eq source (codes "^.*$") || text_eq source (codes "^" ++ t ++ codes "$"));
}

glob_of_all :
    glob_to_regex (codes "a/**/*.{ts,x+}?{") ≡ some (codes "^a/.*[^/]*\\.(?:ts|x\\+)[^/]\\{$")
unfolding glob_to_regex split
glob_of_all = refl

glob_to_regex-Translates_example :
    (body : Text) × (glob_to_regex (codes "src/**/*.html") ≡ some (codes "^" ++ body ++ codes "$"))
    × Translates (codes "src/**/*.html") body
glob_to_regex-Translates_example = glob_to_regex-Translates (codes "src/**/*.html")

abbrev served : List Value
served = str (codes "src/foo") ∷ str (codes "public/bar") ∷ []

abbrev root_list : List Value
root_list = str (codes "site/pages/") ∷ str (codes "site/docs") ∷ []

candidates_test :
    page_candidates engine (codes "/foo") root_list [] ≡ codes "foo" ∷ codes "site/foo" ∷ []
unfolding page_candidates split
candidates_test = refl

page_candidates_iff_example :
    (other : List Text) × IsIdentity
      (page_path engine (codes "/foo"))
      (map segments (strings root_list))
      (strings served)
      other
    × Distinct (page_candidates engine (codes "/foo") root_list served)
    × (contains (page_candidates engine (codes "/foo") root_list served) (codes "src/foo") ≡ (
        contains (suffix_paths (segments (page_path engine (codes "/foo")))) (codes "src/foo")
        || contains (suffix_paths other) (codes "src/foo")))
page_candidates_iff_example =
    page_candidates_iff engine (codes "/foo") root_list served (codes "src/foo")

abbrev entry_star : Value
entry_star = obj (
    field (codes "rule") (str (codes "r")) (
      field (codes "value") (str (codes "*"))
        (field (codes "files") (arr (items (str (codes "foo") ∷ []))) end)))

abbrev entry_red : Value
entry_red =
    obj (field (codes "rule") (str (codes "c")) (field (codes "value") (str (codes "'a+b'")) end))

abbrev config : Value
config = obj (
    field (codes "ignoreRules") (arr (items (str (codes " x ") ∷ [])))
      (field (codes "ignoreValues") (arr (items (entry_star ∷ entry_red ∷ []))) end))

resolve_test : resolve_detect_ignores engine config (codes "/foo") ≡ record {
  disabled_rules = codes "x" ∷ codes "r" ∷ [];
  disabled_values = (codes "c", codes "a b") ∷ [];
  skip_scan = false;
}
unfolding resolve_detect_ignores property text_or_empty trim page_candidates split matches_scope
    glob_to_regex normalize_ignore_value normalize_ignore_rule
resolve_test = refl

rules-resolve_example :
    contains (resolve_detect_ignores engine config (codes "/foo")).disabled_rules (codes "r") ≡ (
      contains (project_rules engine (property (codes "ignoreRules") config)) (codes "r")
      || any
          (λ entry.
            waives_rule engine (candidates_of engine config (codes "/foo")) entry
            && text_eq (codes "r") entry.rule)
          (entries_of engine config (codes "/foo")))
unfolding property matches_scope
rules-resolve_example = rules-resolve engine config (codes "/foo") (codes "r") refl
