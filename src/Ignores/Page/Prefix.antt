-- ===== src/Ignores/Page/Prefix.antt =====
-- The root that `pageCandidates` asserts: the deepest directory above every served file.
use nafir.Base.{
  ◌≡◌, List, [], ◌∷◌, ◌++◌, Text, text_eq, text_eq_iff, All, Bool-cases, inl, inr, refl, ap, sym,
  ◌∙◌, append_assoc, append-nil,
}
use nafir.Ignores.Page.{shared, shared_by_all, common_root}

abbrev pub IsPrefix : List Text → List Text → Type 0
IsPrefix xs ys = (zs : List Text) × (ys ≡ xs ++ zs)

IsPrefix-nil : (ys : List Text) → IsPrefix [] ys
IsPrefix-nil ys = (ys, refl)

IsPrefix-cons : (x : Text) (xs ys : List Text) → IsPrefix xs ys → IsPrefix (x ∷ xs) (x ∷ ys)
IsPrefix-cons x xs ys (zs, e) = (zs, ap (x ∷◌) e)

IsPrefix-trans : (xs ys zs : List Text) → IsPrefix xs ys → IsPrefix ys zs → IsPrefix xs zs
IsPrefix-trans xs ys zs (us, e) (vs, f) =
    (us ++ vs, f ∙ ap (λ (l : List Text). l ++ vs) e ∙ append_assoc xs us vs)

shared-IsPrefix : (xs ys : List Text) → IsPrefix (shared xs ys) xs × IsPrefix (shared xs ys) ys
unfolding shared
shared-IsPrefix [] ys = (IsPrefix-nil [], IsPrefix-nil ys)
shared-IsPrefix (a ∷ xs) [] = (IsPrefix-nil (a ∷ xs), IsPrefix-nil [])
shared-IsPrefix (a ∷ xs) (b ∷ ys) = elim (Bool-cases (text_eq a b)) [
  | inl same ↦
      let (left, right) = shared-IsPrefix xs ys in
      rw same (
        IsPrefix-cons a (shared xs ys) xs left,
        rw (← (text_eq_iff a b).0 same) (IsPrefix-cons a (shared xs ys) ys right),
      )
  | inr differ ↦ rw differ (IsPrefix-nil (a ∷ xs), IsPrefix-nil (b ∷ ys))
]

shared-greatest :
    (cs xs ys : List Text) → IsPrefix cs xs → IsPrefix cs ys → IsPrefix cs (shared xs ys)
unfolding shared
shared-greatest [] xs ys p q = IsPrefix-nil (shared xs ys)
shared-greatest (c ∷ cs) [] ys (zs, e) q = cc
shared-greatest (c ∷ cs) (x ∷ xs) [] p (zs, e) = cc
shared-greatest (c ∷ cs) (x ∷ xs) (y ∷ ys) (us, e) (vs, f) =
    let same : x ≡ y = cc in
    let (zs, g) = shared-greatest cs xs ys (us, cc) (vs, cc) in
    rw ((text_eq_iff x y).1 same) (zs, cc g)

shared_by_all-IsPrefix :
    (common : List Text) (paths : List (List Text))
    → IsPrefix (shared_by_all common paths) common
      × All (IsPrefix (shared_by_all common paths)) paths
unfolding shared_by_all
shared_by_all-IsPrefix common [] = (([], sym (append-nil common)), tt)
shared_by_all-IsPrefix common (path ∷ paths) =
    let (below, all_below) = shared_by_all-IsPrefix (shared common path) paths in
    let (left, right) = shared-IsPrefix common path in
    (IsPrefix-trans _ _ _ below left, (IsPrefix-trans _ _ _ below right, all_below))

shared_by_all-greatest :
    (cs common : List Text) (paths : List (List Text))
    → IsPrefix cs common
    → All (IsPrefix cs) paths
    → IsPrefix cs (shared_by_all common paths)
unfolding shared_by_all
shared_by_all-greatest cs common [] p q = p
shared_by_all-greatest cs common (path ∷ paths) p q =
    shared_by_all-greatest cs (shared common path) paths (shared-greatest cs common path p q.0) q.1

-- The asserted root is a prefix of every configured one, and every common prefix of a list of
-- roots that is not empty is a prefix of it: it is the deepest common ancestor.
pub common_root-greatest :
    (path : List Text) (paths : List (List Text))
    → All (IsPrefix (common_root (path ∷ paths))) (path ∷ paths)
      × ((cs : List Text)
          → All (IsPrefix cs) (path ∷ paths)
          → IsPrefix cs (common_root (path ∷ paths)))
unfolding common_root
common_root-greatest path paths =
    (shared_by_all-IsPrefix path paths, λ cs q. shared_by_all-greatest cs path paths q.0 q.1)
