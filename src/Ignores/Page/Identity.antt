-- ===== src/Ignores/Page/Identity.antt =====
-- Which paths `pageCandidates` lists: the suffixes of the URL's path, and those of one identity.
use nafir.Base.{
  ◌≡◌, ◌||◌, false, List, [], ◌∷◌, ◌++◌, map, Text, codes, contains, add, text_eq, text_eq_iff,
  text_eq_refl, Bool-cases, inl, inr, refl, join, arith,
}
use nafir.Value.{Value}
use nafir.Ignores.Engine.{Engine}
use nafir.Ignores.Page.Other.{IsIdentity, extra_path-IsIdentity}
use nafir.Ignores.Page.{
  page_path, segments, add_suffixes, strings, known_pages, extra_path, page_candidates,
}

-- The paths that are left when a path loses segments from the left.
unfoldable pub suffix_paths : List Text → List Text
suffix_paths [] = []
suffix_paths (part ∷ parts) = join (codes "/") (part ∷ parts) ∷ suffix_paths parts

abbrev pub Distinct : List Text → Type 0
Distinct [] = Unit
Distinct (x ∷ xs) = (contains xs x ≡ false) × Distinct xs

contains-concat :
    (xs : List Text) (a c : Text) → contains (xs ++ a ∷ []) c ≡ (contains xs c || text_eq c a)
contains-concat [] a c = ground arith
contains-concat (x ∷ xs) a c = ground (arith, contains-concat xs a c)

pub contains-add :
    (xs : List Text) (a c : Text) → contains (add xs a) c ≡ (contains xs c || text_eq c a)
contains-add xs a c = elim (Bool-cases (contains xs a)) [
  | inl old ↦ elim (Bool-cases (text_eq c a)) [
    | inl same ↦ rw ((text_eq_iff c a).0 same) (ground (arith, text_eq_refl a))
    | inr differ ↦ ground arith
  ]
  | inr new ↦ rw new (contains-concat xs a c)
]

Distinct-concat :
    (xs : List Text) (a : Text) → Distinct xs → contains xs a ≡ false → Distinct (xs ++ a ∷ [])
Distinct-concat [] a d new = (refl, tt)
Distinct-concat (x ∷ xs) a d new = (
  ground (arith, contains-concat xs a x, text_eq_iff a x, text_eq_iff x a),
  Distinct-concat xs a d.1 (ground arith),
)

Distinct-add : (xs : List Text) (a : Text) → Distinct xs → Distinct (add xs a)
Distinct-add xs a d = elim (Bool-cases (contains xs a)) [
  | inl old ↦ rw old d
  | inr new ↦ rw new (Distinct-concat xs a d new)
]

add_suffixes-Distinct :
    (seen parts : List Text) → Distinct seen → Distinct (add_suffixes seen parts)
unfolding add_suffixes
add_suffixes-Distinct seen [] d = d
add_suffixes-Distinct seen (part ∷ parts) d =
    add_suffixes-Distinct (add seen (join (codes "/") (part ∷ parts))) parts (Distinct-add seen _ d)

contains-add_suffixes :
    (seen parts : List Text) (c : Text)
    → contains (add_suffixes seen parts) c ≡ (contains seen c || contains (suffix_paths parts) c)
unfolding add_suffixes suffix_paths
contains-add_suffixes seen [] c = ground arith
contains-add_suffixes seen (part ∷ parts) c = ground (
  arith,
  contains-add_suffixes (add seen (join (codes "/") (part ∷ parts))) parts c,
  contains-add seen (join (codes "/") (part ∷ parts)) c,
)

suffixes_of_both :
    (own extra : List Text) (c : Text)
    → Distinct (add_suffixes (add_suffixes [] own) extra)
      × (contains (add_suffixes (add_suffixes [] own) extra) c
          ≡ (contains (suffix_paths own) c || contains (suffix_paths extra) c))
suffixes_of_both own extra c = (
  add_suffixes-Distinct (add_suffixes [] own) extra (add_suffixes-Distinct [] own tt),
  ground
      (arith, contains-add_suffixes (add_suffixes [] own) extra c, contains-add_suffixes [] own c),
)

module _ (e : Engine) (pathname : Text) (roots page_files : List Value) where
  abbrev pub path : Text
  path = page_path e pathname

  -- The candidates have no repetition, and a path is one of them exactly if it is a suffix of the
  -- URL's path or of the one other identity: the only served file that ends in that path if there is
  -- exactly one, or else the path below the deepest directory above all configured roots, if there
  -- is one.
  pub page_candidates_iff :
      (c : Text)
      → (other : List Text) × IsIdentity path
          (map segments (strings roots))
          (strings page_files)
          other
        × Distinct (page_candidates e pathname roots page_files)
        × (contains (page_candidates e pathname roots page_files) c
            ≡ (contains (suffix_paths (segments path)) c || contains (suffix_paths other) c))
  unfolding page_candidates known_pages
  page_candidates_iff c =
      let prefixes = map segments (strings roots) in
      let other = extra_path path prefixes (known_pages path page_files) in
      let (distinct, same) = suffixes_of_both (segments path) other c in
      (other, extra_path-IsIdentity path prefixes (strings page_files), distinct, same)

  -- With exactly one served file that ends in the URL's path the configured roots do not matter.
  pub unique_page_ignores_roots :
      (page : Text) (roots' : List Value)
      → known_pages path page_files ≡ page ∷ []
      → (page_candidates e pathname roots page_files ≡ page_candidates e pathname roots' page_files)
  unfolding page_candidates extra_path
  unique_page_ignores_roots page roots' only = rw only
