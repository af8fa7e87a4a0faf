-- ===== src/Ignores/Page/Other.antt =====
-- The one identity of a page beside its URL: the only served file that ends in its path, or the page
-- below the deepest directory above the configured roots.
use nafir.Base.{
  ◌≡◌, ◌⊎◌, inl, inr, Bool, if◌then◌else◌, true, false, List, [], ◌∷◌, ◌++◌, Text, codes, filter,
  join, All, Bool-cases, refl, ap, sym, ◌∙◌,
}
use mathlib.Core.Path.{subst}
use nafir.Ignores.Page.{segments, names_page, common_root, extra_path}
use nafir.Ignores.Page.Prefix.{IsPrefix, common_root-greatest}

-- No file ends in the path.
abbrev pub IsUnserved : Text → List Text → Type 0
IsUnserved path files = All (λ (f : Text). names_page path f ≡ false) files

-- The page is the one file that ends in the path.
abbrev pub IsOnly : Text → List Text → Text → Type 0
IsOnly path [] page = ⊥
IsOnly path (f ∷ fs) page =
    ((names_page path f ≡ true) × (f ≡ page) × IsUnserved path fs)
    ⊎ ((names_page path f ≡ false) × IsOnly path fs page)

-- The deepest directory above all of them; none above no directory.
abbrev pub IsRoot : List (List Text) → List Text → Type 0
IsRoot [] root = root ≡ []
IsRoot (path ∷ paths) root =
    All (IsPrefix root) (path ∷ paths)
    × ((cs : List Text) → All (IsPrefix cs) (path ∷ paths) → IsPrefix cs root)

abbrev pub below : Text → List Text → List Text
below path [] = []
below path (root ∷ roots) = segments (join (codes "/") (root ∷ roots) ++ codes "/" ++ path)

-- The segments of the identity, none if there is none.
pub data IsIdentity (path : Text) (prefixes : List (List Text)) (files : List Text)
    : List Text → Type 0 where
  served : (page : Text) → IsOnly path files page → IsIdentity path prefixes files (segments page)
  rooted :
      (root : List Text)
      → ((page : Text) → ¬ (IsOnly path files page))
      → IsRoot prefixes root
      → IsIdentity path prefixes files (below path root)

abbrev named_ones : Text → List Text → List Text
named_ones path fs = filter (names_page path) fs

named_ones-kept :
    (path f : Text) (fs : List Text)
    → names_page path f ≡ true
    → named_ones path (f ∷ fs) ≡ f ∷ named_ones path fs
named_ones-kept path f fs h =
    ap (λ (b : Bool). if b then f ∷ named_ones path fs else named_ones path fs) h

named_ones-dropped :
    (path f : Text) (fs : List Text)
    → names_page path f ≡ false
    → named_ones path (f ∷ fs) ≡ named_ones path fs
named_ones-dropped path f fs h =
    ap (λ (b : Bool). if b then f ∷ named_ones path fs else named_ones path fs) h

named_ones-IsUnserved :
    (path : Text) (fs : List Text) → named_ones path fs ≡ [] → IsUnserved path fs
named_ones-IsUnserved path [] e = tt
named_ones-IsUnserved path (f ∷ fs) e = elim (Bool-cases (names_page path f)) [
  | inl named ↦ nothing (sym (named_ones-kept path f fs named) ∙ e)
  | inr other ↦
      (other, named_ones-IsUnserved path fs (sym (named_ones-dropped path f fs other) ∙ e))
]
  where
    nothing : {B : Type 0} → f ∷ named_ones path fs ≡ [] → B
    nothing h = cc

IsUnserved-named_ones :
    (path : Text) (fs : List Text) → IsUnserved path fs → named_ones path fs ≡ []
IsUnserved-named_ones path [] h = refl
IsUnserved-named_ones path (f ∷ fs) h =
    named_ones-dropped path f fs h.0 ∙ IsUnserved-named_ones path fs h.1

named_ones-IsOnly :
    (path page : Text) (fs : List Text) → named_ones path fs ≡ page ∷ [] → IsOnly path fs page
named_ones-IsOnly path page [] e = cc
named_ones-IsOnly path page (f ∷ fs) e = elim (Bool-cases (names_page path f)) [
  | inl named ↦
      let same : f ∷ named_ones path fs ≡ page ∷ [] = sym (named_ones-kept path f fs named) ∙ e in
      inl (named, cc, named_ones-IsUnserved path fs cc)
  | inr other ↦
      inr (other, named_ones-IsOnly path page fs (sym (named_ones-dropped path f fs other) ∙ e))
]

IsOnly-named_ones :
    (path page : Text) (fs : List Text) → IsOnly path fs page → named_ones path fs ≡ page ∷ []
IsOnly-named_ones path page [] h = absurd h
IsOnly-named_ones path page (f ∷ fs) (inl (named, same, rest)) =
    named_ones-kept path f fs named
    ∙ ap (λ (l : List Text). f ∷ l) (IsUnserved-named_ones path fs rest)
    ∙ ap (λ (g : Text). g ∷ []) same
IsOnly-named_ones path page (f ∷ fs) (inr (other, rest)) =
    named_ones-dropped path f fs other ∙ IsOnly-named_ones path page fs rest

common_root-IsRoot : (prefixes : List (List Text)) → IsRoot prefixes (common_root prefixes)
unfolding common_root
common_root-IsRoot [] = refl
common_root-IsRoot (path ∷ paths) = common_root-greatest path paths

below-elim :
    (path : Text) (root : List Text)
    → elim root [
      | [] ↦ []
      | root ∷ roots ↦ segments (join (codes "/") (root ∷ roots) ++ codes "/" ++ path)
    ]
      ≡ below path root
below-elim path [] = refl
below-elim path (root ∷ roots) = refl

module _ (path : Text) (prefixes : List (List Text)) (files : List Text) where
  rooted-IsIdentity :
      ((page : Text) → ¬ (named_ones path files ≡ page ∷ []))
      → IsIdentity path prefixes files (below path (common_root prefixes))
  rooted-IsIdentity h =
      rooted (common_root prefixes) (λ page only. h page (IsOnly-named_ones path page files only))
        (common_root-IsRoot prefixes)

  extra-IsIdentity :
      (known : List Text)
      → named_ones path files ≡ known
      → IsIdentity path prefixes files (extra_path path prefixes known)
  unfolding extra_path
  extra-IsIdentity [] e =
      subst (IsIdentity path prefixes files) (sym (below-elim path (common_root prefixes)))
        (rooted-IsIdentity (λ page other. none_is (sym e ∙ other)))
    where
      none_is : {page : Text} → [] ≡ page ∷ [] → ⊥
      none_is h = cc
  extra-IsIdentity (page ∷ []) e = served page (named_ones-IsOnly path page files e)
  extra-IsIdentity (page ∷ next ∷ more) e =
      subst (IsIdentity path prefixes files) (sym (below-elim path (common_root prefixes)))
        (rooted-IsIdentity (λ page other. several (sym e ∙ other)))
    where
      several : {p q r : Text} {rest : List Text} → p ∷ q ∷ rest ≡ r ∷ [] → ⊥
      several h = cc

  pub extra_path-IsIdentity :
      IsIdentity path prefixes files (extra_path path prefixes (named_ones path files))
  extra_path-IsIdentity = extra-IsIdentity (named_ones path files) refl
