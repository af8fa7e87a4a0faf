-- ===== src/Target/Resolve/Laws.antt =====
-- A target means one element exactly.
use nafir.Base.{
  ℕ, zero, suc, ◌≡◌, ◌↔◌, Bool, ◌&&◌, ◌||◌, Option, none, some, List, [], ◌∷◌, ◌++◌, length, take,
  drop, filter, arith, is_empty, Bool-cases, Option-cases, inl, inr, refl, ap, ◌∙◌,
}
use nafir.Base.Int.{ℤ, pos, negsuc}
use nafir.Target.Resolve.{
  Element, Page, Message, found, has_text, candidates_of, nth, element_at, by_index, choose, among,
  resolved, resolve_agent_target_element,
}

-- The elements that may be meant: those that can be picked, and hold the wanted text if there is
-- one.
abbrev pub is_eligible : Page → Message → Element → Bool
is_eligible page msg el =
    el.pickable && (is_empty msg.text || has_text page (page.lower msg.text) el)

-- `el` is the element of `els` that an index, counted from 1, means, or the only one.
abbrev pub IsChosen : Option ℤ → List Element → Element → Type 0
IsChosen none els el = els ≡ el ∷ []
IsChosen (some (pos (suc n))) els el =
    (els ≡ take n els ++ el ∷ drop (suc n) els) × (length (take n els) ≡ n)
IsChosen (some _) els el = ⊥

filter-both :
    {A : Type 0} (p q : A → Bool) (xs : List A)
    → filter q (filter p xs) ≡ filter (λ x. p x && q x) xs
filter-both p q [] = refl
filter-both p q (x ∷ xs) = ground (arith, filter-both p q xs)

filter-same :
    {A : Type 0} (p q : A → Bool) (xs : List A) → ((x : A) → p x ≡ q x) → filter p xs ≡ filter q xs
filter-same p q [] h = refl
filter-same p q (x ∷ xs) h = ground (arith, h x, filter-same p q xs h)

candidates_of-filter :
    (page : Page) (msg : Message) (matched : List Element)
    → candidates_of page msg matched ≡ filter (is_eligible page msg) matched
unfolding candidates_of
candidates_of-filter page msg matched =
    let texts : Element → Bool = has_text page (page.lower msg.text) in
    elim (Bool-cases (is_empty msg.text)) [
      | inl e ↦
          rw (e, candidates_of)
            (filter-same (λ el. el.pickable) (is_eligible page msg) matched
              (λ el. ground (arith, e)))
      | inr e ↦
          rw (e, candidates_of)
            (filter-both (λ el. el.pickable) texts matched
              ∙ filter-same (λ el. el.pickable && texts el) (is_eligible page msg) matched
                  (λ el. ground (arith, e)))
    ]

nth_iff :
    (n : ℕ) (els : List Element) (el : Element)
    → (nth n els ≡ some el)
      ↔ ((els ≡ take n els ++ el ∷ drop (suc n) els) × (length (take n els) ≡ n))
unfolding nth
nth_iff zero [] el = (λ h. cc, λ (h, _). cc)
nth_iff (suc n) [] el = (λ h. cc, λ (h, _). cc)
nth_iff zero (x ∷ els) el = (λ h. (cc, refl), λ (h, _). cc)
nth_iff (suc n) (x ∷ els) el = (
  λ h. let (split, long) = (nth_iff n els el).0 h in (ap (x ∷◌) split, ap suc long),
  λ (split, long). (nth_iff n els el).1 (cc, omega (arith, long)),
)

by_index_iff :
    (count : ℕ) (chosen : Option Element) (el : Element) (n : ℕ)
    → (by_index count chosen ≡ found el n) ↔ ((n ≡ count) × (chosen ≡ some el))
unfolding by_index
by_index_iff count none el n = (λ h. cc, λ (long, h). cc)
by_index_iff count (some x) el n = (λ h. (cc, cc), λ (long, h). cc)

absurd-none : {B : Type 0} {el : Element} → none ≡ some el → B
absurd-none h = cc

none-IsChosen : (index : Option ℤ) (el : Element) → IsChosen index [] el → ⊥
unfolding nth
none-IsChosen none el h = cc
none-IsChosen (some (pos zero)) el h = h
none-IsChosen (some (pos (suc n))) el h =
    let nothing : none ≡ some el = (nth_iff n [] el).1 h in absurd-none nothing
none-IsChosen (some (negsuc n)) el h = h

choose_iff :
    (page : Page) (index : Option ℤ) (x : Element) (els : List Element) (el : Element) (n : ℕ)
    → (choose page index x els ≡ found el n)
      ↔ ((n ≡ length (x ∷ els)) × IsChosen index (x ∷ els) el)
unfolding choose element_at
choose_iff page none x [] el n = (λ h. (cc, cc), λ (long, same). cc)
choose_iff page none x (y ∷ els) el n = (λ h. cc, λ (long, same). cc)
choose_iff page (some (pos zero)) x els el n =
    let law = by_index_iff (length (x ∷ els)) none el n in
    (λ h. absurd-none (law.0 h).1, λ (long, same). absurd same)
choose_iff page (some (negsuc i)) x els el n =
    let law = by_index_iff (length (x ∷ els)) none el n in
    (λ h. absurd-none (law.0 h).1, λ (long, same). absurd same)
choose_iff page (some (pos (suc i))) x els el n =
    let law = by_index_iff (length (x ∷ els)) (nth i (x ∷ els)) el n in
    let place = nth_iff i (x ∷ els) el in
    (λ h. ((law.0 h).0, place.0 (law.0 h).1), λ (long, chosen). law.1 (long, place.1 chosen))

among_iff :
    (page : Page) (msg : Message) (raw : ℕ) (els : List Element) (el : Element) (n : ℕ)
    → (among page msg raw els ≡ found el n) ↔ ((n ≡ length els) × IsChosen msg.index els el)
unfolding among
among_iff page msg raw [] el n =
    (λ h. cc, λ (long, chosen). absurd (none-IsChosen msg.index el chosen))
among_iff page msg raw (x ∷ els) el n = choose_iff page msg.index x els el n

-- A target is resolved to an element, with a count, exactly if its selector is valid, the count is
-- that of the eligible elements that match it, and the element is the one among these that the
-- index means or, without an index, the only one.
pub resolve_agent_target_element_iff :
    (page : Page) (msg : Message) (el : Element) (n : ℕ)
    → (resolve_agent_target_element page msg ≡ found el n) ↔ (
        (matched : List Element) × (page.query_selector_all msg.selector ≡ some matched)
        × (n ≡ length (filter (is_eligible page msg) matched))
        × IsChosen msg.index (filter (is_eligible page msg) matched) el)
unfolding resolve_agent_target_element resolved
resolve_agent_target_element_iff page msg el n =
    elim (Option-cases (page.query_selector_all msg.selector)) [
      | inl thrown ↦ rw (thrown, resolved) (λ h. cc, λ (m, valid, _, _). cc)
      | inr (matched, e) ↦
          let els = filter (is_eligible page msg) matched in
          let law = among_iff page msg (length matched) els el n in
          rw (e, resolved, candidates_of-filter page msg matched)
            (
              λ h. (matched, refl, (law.0 h).0, (law.0 h).1),
              λ (m, valid, long, chosen).
                  let same : matched ≡ m = cc in law.1 (rw same long, rw same chosen),
            )
    ]
