-- ===== src/Ignores/Page.antt =====
-- `pageCandidates`: the project-relative paths that the page of a URL may be known by.
pub mod Prefix
pub mod Other
pub mod Identity
use nafir.Base.{
  ℕ, ◌≡◌, Bool, ◌||◌, ◌&&◌, not, true, false, Option, none, some, List, [], ◌∷◌, ◌++◌, map,
  if◌then◌else◌, ◌==◌, Text, codes, contains, add, is_empty, filter, text_eq, ends_with, length,
  split, join,
}
use nafir.Value.{Value, as_string}
use nafir.Ignores.Engine.{Engine}

-- `replace(/^\/+/, '')`
pub drop_slashes : Text → Text
drop_slashes [] = []
drop_slashes (c ∷ s) = if c == b'/' then drop_slashes s else c ∷ s

-- `decodeURIComponent`, or the raw path where that throws.
decoded : Option Text → Text → Text
decoded none raw = raw
decoded (some path) raw = path

-- A directory URL serves that directory's index.
index_page : Text → Text
index_page path =
    if is_empty path || ends_with path (codes "/") then path ++ codes "index.html" else path

unfoldable pub page_path : Engine → Text → Text
unfolding drop_slashes decoded index_page
page_path e pathname = index_page (drop_slashes (decoded (e.decode_uri pathname) pathname))

-- `path.split('/').filter(Boolean)`
unfoldable pub segments : Text → List Text
segments path = filter (λ part. not (is_empty part)) (split b'/' path)

-- The loop of `addSuffixes`: one candidate for each place where the path can be cut.
pub add_suffixes : List Text → List Text → List Text
add_suffixes seen [] = seen
add_suffixes seen (part ∷ parts) = add_suffixes (add seen (join (codes "/") (part ∷ parts))) parts

-- The entries that are strings.
abbrev pub strings : List Value → List Text
strings [] = []
strings (Value.str t ∷ vs) = t ∷ strings vs
strings (_ ∷ vs) = strings vs

abbrev pub names_page : Text → Text → Bool
names_page path entry =
    not (is_empty entry) && (text_eq entry path || ends_with entry (codes "/" ++ path))

unfoldable pub known_pages : Text → List Value → List Text
known_pages path page_files = filter (names_page path) (strings page_files)

-- The inner `while` loop: the segments that two paths share from the left.
unfoldable pub shared : List Text → List Text → List Text
shared (a ∷ xs) (b ∷ ys) = let rest = shared xs ys in if text_eq a b then a ∷ rest else []
shared _ _ = []

shared_by_all : List Text → List (List Text) → List Text
unfolding shared
shared_by_all common [] = common
shared_by_all common (path ∷ paths) = shared_by_all (shared common path) paths

unfoldable pub common_root : List (List Text) → List Text
unfolding shared_by_all
common_root [] = []
common_root (path ∷ paths) = shared_by_all path paths

-- Behind the suffixes of the page's own path, one identity more: the only served file that fits,
-- or the page below the root that all served files share.
pub extra_path : Text → List (List Text) → List Text → List Text
unfolding segments
extra_path path prefixes (page ∷ []) = segments page
extra_path path prefixes _ = elim (common_root prefixes) [
  | [] ↦ []
  | root ∷ roots ↦ segments (join (codes "/") (root ∷ roots) ++ codes "/" ++ path)
]

unfoldable pub page_candidates : Engine → Text → List Value → List Value → List Text
unfolding page_path segments add_suffixes known_pages common_root extra_path
page_candidates e pathname roots page_files =
    let path = page_path e pathname in
    add_suffixes (add_suffixes [] (segments path))
      (extra_path path (map segments (strings roots)) (known_pages path page_files))
