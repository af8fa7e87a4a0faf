-- ===== src/Reference/Found.antt =====
-- A segment that tells an element by its place among the siblings of its tag finds it.
use nafir.Base.{
  ℕ, suc, ◌+◌, ◌≡◌, true, false, ◌||◌, ==_iff, Option, some, List, [], ◌∷◌, ◌++◌, all, contains,
  length, length-append, if◌then◌else◌, arith, ap, ◌∙◌, Text, text_eq, text_eq_iff, is_empty,
  branch_true, branch_false, Bool-cases, inl, inr,
}
use nafir.Reference.{
  Element, Segment, same_tag_up_to, index_among_same_tag, element_matches_manual_ref_segment,
  find_child,
}

-- The number of elements with a tag.
abbrev pub tags_in : Text → List Element → ℕ
tags_in tag [] = 0
tags_in tag (e ∷ es) = (if text_eq e.tag tag then 1 else 0) + tags_in tag es

tags_in-append :
    (tag : Text) (xs ys : List Element) → tags_in tag (xs ++ ys) ≡ tags_in tag xs + tags_in tag ys
tags_in-append tag [] ys = omega arith
tags_in-append tag (x ∷ xs) ys = omega (arith, tags_in-append tag xs ys)

up_to-last :
    (tag : Text) (e : Element) (before after : List Element)
    → same_tag_up_to tag (length before) (before ++ e ∷ after)
      ≡ tags_in tag before + (if text_eq e.tag tag then 1 else 0)
up_to-last tag e [] after = omega arith
up_to-last tag e (x ∷ before) after = omega (arith, up_to-last tag e before after)

-- The segment names nothing of the element that it has not.
pub record Fits (s : Segment) (e : Element) : Type 0 where
  pub tag : e.tag ≡ s.tag
  pub id : (is_empty s.id || text_eq e.id s.id) ≡ true
  pub classes : all (contains e.class_list) s.classes ≡ true

element_matches_manual_ref_segment-Fits :
    (s : Segment) (e : Element) (index : ℕ)
    → Fits s e
    → index ≡ s.nth
    → element_matches_manual_ref_segment e index s ≡ true
element_matches_manual_ref_segment-Fits s e index h same =
    ground (arith, (text_eq_iff e.tag s.tag).1 h.tag, h.id, h.classes, (==_iff index s.nth).1 same)

-- An earlier sibling has another tag or a smaller index.
earlier-misses :
    (s : Segment) (x : Element) (before : List Element) (more : ℕ)
    → s.nth ≡ tags_in s.tag before + ((if text_eq x.tag s.tag then 1 else 0) + more) + 1
    → element_matches_manual_ref_segment x
        (same_tag_up_to x.tag (length before) (before ++ x ∷ []))
        s
      ≡ false
earlier-misses s x before more place = elim (Bool-cases (text_eq x.tag s.tag)) [
  | inl e ↦
      let same : x.tag ≡ s.tag = (text_eq_iff x.tag s.tag).0 e in
      let index =
        ap (λ t. same_tag_up_to t (length before) (before ++ x ∷ [])) same
        ∙ up_to-last s.tag x before [] in
      ground (arith, index, place, e)
  | inr n ↦ ground (arith, n)
]

index_of_place :
    (s : Segment) (e : Element) (before after : List Element)
    → Fits s e
    → s.nth ≡ tags_in s.tag before + 1
    → same_tag_up_to e.tag (length before) (before ++ e ∷ after) ≡ s.nth
index_of_place s e before after h place =
    let own : text_eq e.tag s.tag ≡ true = (text_eq_iff e.tag s.tag).1 h.tag in
    let index =
      ap (λ t. same_tag_up_to t (length before) (before ++ e ∷ after)) h.tag
      ∙ up_to-last s.tag e before after in
    ground (arith, place, index, own)

find_child-found :
    (s : Segment) (e : Element) (before between after : List Element)
    → Fits s e
    → s.nth ≡ tags_in s.tag before + tags_in s.tag between + 1
    → find_child before (between ++ e ∷ after) s ≡ some (length before + length between)
find_child-found s e before [] after h place =
    let index : same_tag_up_to e.tag (length before) (before ++ e ∷ []) ≡ s.nth =
      index_of_place s e before [] h (omega (arith, place)) in
    branch_true (λ (r : Option ℕ). r ≡ some (length before + 0))
      (element_matches_manual_ref_segment e
        (same_tag_up_to e.tag (length before) (before ++ e ∷ [])) s)
      _
      (element_matches_manual_ref_segment-Fits s e
        (same_tag_up_to e.tag (length before) (before ++ e ∷ [])) h index)
      (ap (λ (n : ℕ). some n) (omega arith))
find_child-found s e before (x ∷ between) after h place =
    branch_false (λ (r : Option ℕ). r ≡ some (length before + suc (length between)))
      (element_matches_manual_ref_segment x
        (same_tag_up_to x.tag (length before) (before ++ x ∷ [])) s)
      _ (earlier-misses s x before (tags_in s.tag between) place)
      (find_child-found s e (before ++ x ∷ []) between after h
          (omega (arith, place, tags_in-append s.tag before (x ∷ [])))
        ∙ ap (λ (n : ℕ). some n) (omega (arith, length-append before (x ∷ []))))

-- Whatever siblings an element has: a segment with its tag and its index among those of its tag,
-- and no id or class that it has not, finds the element and no other.
pub find_child-index :
    (s : Segment) (e : Element) (between after : List Element)
    → Fits s e
    → s.nth ≡ index_among_same_tag (between ++ e ∷ after) (length between) e
    → find_child [] (between ++ e ∷ after) s ≡ some (length between)
find_child-index s e between after h place =
    let own : text_eq e.tag s.tag ≡ true = (text_eq_iff e.tag s.tag).1 h.tag in
    let index =
      ap (λ t. same_tag_up_to t (length between) (between ++ e ∷ after)) h.tag
      ∙ up_to-last s.tag e between after in
    let at : s.nth ≡ tags_in s.tag between + 1 = ground (arith, place, index, own) in
    find_child-found s e [] between after h (omega (arith, at))
    ∙ ap (λ (n : ℕ). some n) (omega arith)
