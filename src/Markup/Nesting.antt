-- ===== src/Markup/Nesting.antt =====
-- When the lists of a Markdown text are nested.
use nafir.Base.{
  ℕ, zero, suc, ◌+◌, ◌-◌, ◌≤◌, ◌<◌, ◌≡◌, ◌↔◌, Option, none, some, List, [], ◌∷◌, ◌++◌,
  if◌then◌else◌, ltb, arith, refl, Text, Bool-cases, inl, inr, append-nil, branch_true,
  branch_false, ap, sym, ◌∙◌,
}
use nafir.Markup.{Item, Piece, open_list, close_list, item, repeat, build_items, list_pieces}

-- The number of lists that are open behind the pieces, if each list is closed behind its opening,
-- and each item is in a list.
abbrev pub still_open : ℕ → List Piece → Option ℕ
still_open d [] = some d
still_open d (open_list ∷ ps) = still_open (suc d) ps
still_open zero (close_list ∷ ps) = none
still_open (suc d) (close_list ∷ ps) = still_open d ps
still_open zero (item html ∷ ps) = none
still_open (suc d) (item html ∷ ps) = still_open (suc d) ps

-- Each item is at most one step further in than the last one.
abbrev pub IsGradual : ℕ → List Item → Type 0
IsGradual last [] = Unit {0}
IsGradual last (it ∷ items) = (it.indent ≤ last + 1) × IsGradual it.indent items

closed :
    (k d n : ℕ) (ps : List Piece)
    → n ≡ k + d
    → still_open n (repeat k close_list ++ ps) ≡ still_open d ps
closed zero d n ps e = ap (λ m. still_open m ps) (omega (arith, e))
closed (suc k) d zero ps e = absurd (omega (arith, e))
closed (suc k) d (suc n) ps e = closed k d n ps (omega (arith, e))

too_many : (k n : ℕ) (ps : List Piece) → n < k → still_open n (repeat k close_list ++ ps) ≡ none
too_many zero n ps h = absurd (omega (arith, h))
too_many (suc k) zero ps h = refl
too_many (suc k) (suc n) ps h = too_many k n ps (omega (arith, h))

item-none :
    (d : ℕ) (html : Text) (ps : List Piece)
    → still_open d ps ≡ none
    → still_open d (item html ∷ ps) ≡ none
item-none zero html ps h = refl
item-none (suc d) html ps h = h

-- What an item appends before its own piece, by the direction of its step.
abbrev moves : ℕ → ℕ → List Piece
moves last indent =
    if ltb last indent
    then open_list ∷ []
    else if ltb indent last
    then repeat (last - indent) close_list
    else []

fewer :
    (d k : ℕ) (rest : List Piece)
    → ((n : ℕ) → n ≤ d - k → still_open n rest ≡ none)
    → still_open d (repeat k close_list ++ rest) ≡ none
fewer d k rest at = elim (Bool-cases (ltb d k)) [
  | inl less ↦ too_many k d rest (ground (arith, less))
  | inr enough ↦ closed k (d - k) d rest (ground (arith, enough)) ∙ at (d - k) (omega arith)
]

-- With too few lists open, some list is closed once too often.
deficient :
    (d last : ℕ) (items : List Item) → d ≤ last → still_open d (build_items last items) ≡ none
deficient d last [] h =
    ap (still_open d) (sym (append-nil (repeat (suc last) close_list)))
    ∙ too_many (suc last) d [] (omega (arith, h))
deficient d last (it ∷ items) h =
    let rest = item it.html ∷ build_items it.indent items in
    let Goal : List Piece → Type 0 = λ ms. still_open d (ms ++ rest) ≡ none in
    let at : (n : ℕ) → n ≤ it.indent → still_open n rest ≡ none =
      λ n le. item-none n it.html (build_items it.indent items) (deficient n it.indent items le) in
    elim (Bool-cases (ltb last it.indent)) [
      | inl up ↦ branch_true Goal (ltb last it.indent) _ up (at (suc d) (ground (arith, up, h)))
      | inr level ↦
          branch_false Goal (ltb last it.indent) _ level (elim (Bool-cases (ltb it.indent last)) [
            | inl down ↦
                branch_true Goal (ltb it.indent last) _ down
                  (fewer d (last - it.indent) rest (λ n le. at n (omega (arith, le, h))))
            | inr same ↦
                branch_false Goal (ltb it.indent last) _ same
                  (at d (ground (arith, level, same, h)))
          ])
    ]

-- After a step in of one at most, as many lists are open as the item is indented, and one more.
moves-arrive :
    (last indent : ℕ) (rest : List Piece)
    → indent ≤ last + 1
    → still_open (suc last) (moves last indent ++ rest) ≡ still_open (suc indent) rest
moves-arrive last indent rest le =
    let Goal : List Piece → Type 0 =
      λ ms. still_open (suc last) (ms ++ rest) ≡ still_open (suc indent) rest in
    elim (Bool-cases (ltb last indent)) [
      | inl up ↦
          branch_true Goal (ltb last indent) _ up
            (ap (λ n. still_open n rest) (ground (arith, up, le)))
      | inr level ↦
          branch_false Goal (ltb last indent) _ level (elim (Bool-cases (ltb indent last)) [
            | inl down ↦
                branch_true Goal (ltb indent last) _ down
                  (closed (last - indent) (suc indent) (suc last) rest (ground (arith, down)))
            | inr same ↦
                branch_false Goal (ltb indent last) _ same
                  (ap (λ n. still_open n rest) (ground (arith, level, same)))
          ])
    ]

build_items-nested :
    (last : ℕ) (items : List Item)
    → IsGradual last items
    → still_open (suc last) (build_items last items) ≡ some 0
build_items-nested last [] h =
    ap (still_open (suc last)) (sym (append-nil (repeat (suc last) close_list)))
    ∙ closed (suc last) 0 (suc last) [] (omega arith)
build_items-nested last (it ∷ items) (near, h) =
    moves-arrive last it.indent (item it.html ∷ build_items it.indent items) near
    ∙ build_items-nested it.indent items h

build_items-IsGradual :
    (last : ℕ) (items : List Item)
    → still_open (suc last) (build_items last items) ≡ some 0
    → IsGradual last items
build_items-IsGradual last [] h = tt
build_items-IsGradual last (it ∷ items) h =
    let rest = item it.html ∷ build_items it.indent items in
    elim (Bool-cases (ltb (last + 1) it.indent)) [
      | inl far ↦
          let jumped : still_open (suc last) (moves last it.indent ++ rest) ≡ none =
            branch_true (λ (ms : List Piece). still_open (suc last) (ms ++ rest) ≡ none)
              (ltb last it.indent) _ (ground (arith, far))
              (deficient (suc (suc last)) it.indent items (ground (arith, far))) in
          cc
      | inr near ↦
          let le : it.indent ≤ last + 1 = ground (arith, near) in
          (
            le,
            build_items-IsGradual it.indent items (sym (moves-arrive last it.indent rest le) ∙ h),
          )
    ]

-- The tags of a list are nested, with each item in a list and no list left open or closed too
-- often, exactly if each item is at most one step further in than the one before it, and the first
-- one at most one step.
pub list_pieces-nested_iff :
    (items : List Item) → (still_open 0 (list_pieces items) ≡ some 0) ↔ IsGradual 0 items
list_pieces-nested_iff items = (build_items-IsGradual 0 items, build_items-nested 0 items)
