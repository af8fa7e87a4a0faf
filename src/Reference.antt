-- ===== src/Reference.antt =====
-- The references of copy edits to elements, live-browser.js: `documentRefForElement` with its parts,
-- and back `queryManualEditRef`, for elements below the body of the page.
mod RoundTrip
mod Segments
mod Found
pub mod Parse
mod Tests
use nafir.Base.{
  span, is_digit, ℕ, zero, suc, ◌+◌, ◌-◌, Bool, true, false, not, ◌&&◌, ◌||◌, ◌==◌, Option, none,
  some, List, [], ◌∷◌, ◌++◌, map, if◌then◌else◌, leb, Text, codes, text_eq, is_empty, is_space,
  starts_with, ends_with, contains, take, drop, length, filter, all, split, join, trim,
}

-- `String(n)` of a natural number, `Number(digits)` of decimal digits, and `toLowerCase`.
pub record Host : Type 0 where
  pub show : ℕ → Text
  pub number : Text → ℕ
  pub lower : Text → Text

-- An element, with its tag in lower case, and its classes in their order; `id` is empty if it has
-- none.
pub record Element : Type 0 where
  pub tag : Text
  pub id : Text
  pub class_list : List Text

-- The element children of a node, each with its own.
mutual
  pub data Node : Type 0 where
    node : Element → Nodes → Node

  pub data Nodes : Type 0 where
    nil : Nodes
    cons : Node → Nodes → Nodes

abbrev pub element : Node → Element
element (node e cs) = e

abbrev pub children : Node → Nodes
children (node e cs) = cs

abbrev pub elements : Nodes → List Element
elements nil = []
elements (cons n ns) = element n ∷ elements ns

abbrev pub child : Nodes → ℕ → Option Node
child nil i = none
child (cons n ns) zero = some n
child (cons n ns) (suc i) = child ns i

-- `normalizeDocumentRefToken`: a run of `>` and white space becomes one `_`; `joins` says whether
-- the last unit was of such a run.
abbrev pub normalized_from : Bool → Text → Text
normalized_from joins [] = []
normalized_from joins (c ∷ s) =
    let joined = normalized_from true s in
    let kept = normalized_from false s in
    if (c == b'>') || is_space c then (if joins then joined else b'_' ∷ joined) else c ∷ kept

abbrev pub normalize_document_ref_token : Text → Text
normalize_document_ref_token s = normalized_from false s

-- The number of elements with this tag among the first `suc i` siblings.
abbrev pub same_tag_up_to : Text → ℕ → List Element → ℕ
same_tag_up_to tag i [] = 0
same_tag_up_to tag zero (e ∷ es) = if text_eq e.tag tag then 1 else 0
same_tag_up_to tag (suc i) (e ∷ es) = (if text_eq e.tag tag then 1 else 0) + same_tag_up_to tag i es

-- `indexAmongSameTag` of the sibling `e` at `i`
abbrev pub index_among_same_tag : List Element → ℕ → Element → ℕ
index_among_same_tag siblings i e = same_tag_up_to e.tag i siblings

-- `documentRefIdSuffix`
abbrev pub document_ref_id_suffix : Element → Text
document_ref_id_suffix e = if is_empty e.id then [] else b'#' ∷ normalize_document_ref_token e.id

-- The classes that a reference names: the first two that are not the tool's own.
abbrev pub named_classes : Element → List Text
named_classes e =
    take 2 (filter (λ c. not (is_empty c || starts_with c (codes "impeccable-"))) e.class_list)

abbrev pub dotted : List Text → Text
dotted [] = []
dotted (c ∷ cs) = b'.' ∷ (normalize_document_ref_token c ++ dotted cs)

-- `documentRefClassSuffix`
abbrev pub document_ref_class_suffix : Element → Text
document_ref_class_suffix e = dotted (named_classes e)

-- `documentRefSegment` of the sibling `e` at `i`
abbrev pub document_ref_segment : Host → List Element → ℕ → Element → Text
document_ref_segment host siblings i e =
    e.tag
    ++ (document_ref_id_suffix e
        ++ (document_ref_class_suffix e
            ++ (codes ":nth-of-type("
                ++ (host.show (index_among_same_tag siblings i e) ++ codes ")"))))

abbrev pub with_child : (Node → List Text) → Option Node → List Text
with_child more none = []
with_child more (some n) = more n

-- The segments from the children of the body to the element at the path, a child's place in each.
abbrev pub segments : Host → Nodes → List ℕ → List Text
segments host ns [] = []
segments host ns (i ∷ path) =
    with_child
      (λ n. document_ref_segment host (elements ns) i (element n) ∷ segments host (children n) path)
      (child ns i)

-- `documentRefForElement`, for the element at a path in the body
abbrev pub document_ref_for_element : Host → Nodes → List ℕ → Text
document_ref_for_element host body path = join (codes ">") (codes "body" ∷ segments host body path)

-- What `parseManualEditRefSegment` makes of a segment; `nth` is 0 and `id` empty if they are missing.
pub record Segment : Type 0 where
  pub tag : Text
  pub id : Text
  pub classes : List Text
  pub nth : ℕ

-- The digits of `:nth-of-type(…)`, if the text is that and nothing else.
abbrev pub nth_digits : Text → Option Text
nth_digits s =
    let (digits, rest) = span is_digit (drop 13 s) in
    if starts_with s (codes ":nth-of-type(") && not (is_empty digits) && text_eq rest (codes ")")
    then some digits
    else none

abbrev pub put_before : ℕ → Text × Option Text → Option Text → Text × Option Text
put_before c later none = (c ∷ later.0, later.1)
put_before c later (some digits) = ([], some digits)

-- The text before `:nth-of-type(…)` at its end, and the digits.
abbrev pub split_nth : Text → Text × Option Text
split_nth [] = ([], none)
split_nth (c ∷ s) = let later = split_nth s in put_before c later (nth_digits (c ∷ s))

abbrev pub in_tag : ℕ → Bool
in_tag c = not ((c == b'#') || (c == b'.') || (c == b':') || is_space c)

abbrev pub in_id : ℕ → Bool
in_id c = not ((c == b'#') || (c == b'.'))

-- The first `#` with a name behind it: the text without both, and the name.
abbrev pub split_id : Text → Text × Text
split_id [] = ([], [])
split_id (c ∷ s) =
    let (before, id) = split_id s in
    let (name, rest) = span in_id s in
    if (c == b'#') && not (is_empty name) then (rest, name) else (c ∷ before, id)

abbrev pub number_of : Host → Option Text → ℕ
number_of host none = 0
number_of host (some digits) = host.number digits

-- `parseManualEditRefSegment`
unfoldable pub parse_manual_edit_ref_segment : Host → Text → Option Segment
parse_manual_edit_ref_segment host s =
    let (base, digits) = split_nth s in
    let tag = host.lower (span in_tag base).0 in
    if is_empty tag
    then none
    else some (record {
      tag = tag;
      id = (split_id base).1;
      classes = filter (λ c. not (is_empty c)) (split b'.' (split_id (drop (length tag) base)).0);
      nth = number_of host digits;
    })

-- `elementMatchesManualRefSegment`, for the element with that index among its siblings of its tag
abbrev pub element_matches_manual_ref_segment : Element → ℕ → Segment → Bool
element_matches_manual_ref_segment e index s =
    text_eq e.tag s.tag
    && (is_empty s.id || text_eq e.id s.id)
    && all (contains e.class_list) s.classes
    && ((s.nth == 0) || (index == s.nth))

-- `children.find(…)`: the place of the first child that matches; `before` are its siblings so far.
abbrev pub find_child : List Element → List Element → Segment → Option ℕ
find_child before [] s = none
find_child before (e ∷ es) s =
    let later = find_child (before ++ e ∷ []) es s in
    let index = same_tag_up_to e.tag (length before) (before ++ e ∷ []) in
    if element_matches_manual_ref_segment e index s then some (length before) else later

abbrev pub prepend : ℕ → Option (List ℕ) → Option (List ℕ)
prepend i none = none
prepend i (some path) = some (i ∷ path)

-- The child at a place, the child that a segment finds, and what `rest` finds below it.
abbrev pub below_child : (Nodes → Option (List ℕ)) → ℕ → Option Node → Option (List ℕ)
below_child rest i none = none
below_child rest i (some n) = prepend i (rest (children n))

abbrev pub below_place : (Nodes → Option (List ℕ)) → Nodes → Option ℕ → Option (List ℕ)
below_place rest ns none = none
below_place rest ns (some i) = below_child rest i (child ns i)

abbrev pub below_segment : (Nodes → Option (List ℕ)) → Nodes → Option Segment → Option (List ℕ)
below_segment rest ns none = none
below_segment rest ns (some s) = below_place rest ns (find_child [] (elements ns) s)

-- The elements that the parts of a reference name, each among the children of the last.
abbrev pub query_from : Host → Nodes → List Text → Option (List ℕ)
query_from host ns [] = some []
query_from host ns (p ∷ ps) =
    below_segment (λ ns'. query_from host ns' ps) ns (parse_manual_edit_ref_segment host p)

pub record Body : Type 0 where
  pub own : Element
  pub kids : Nodes

-- The first part may name the body itself.
abbrev pub query_first : Host → Body → Text → List Text → Option Segment → Option (List ℕ)
query_first host body p ps none = none
query_first host body p ps (some s) =
    if text_eq s.tag (codes "body")
    then (if element_matches_manual_ref_segment body.own 1 s
        then query_from host body.kids ps
        else none)
    else query_from host body.kids (p ∷ ps)

abbrev pub query_parts : Host → Body → List Text → Option (List ℕ)
query_parts host body [] = none
query_parts host body (p ∷ ps) = query_first host body p ps (parse_manual_edit_ref_segment host p)

-- `queryManualEditRef`: the path to the element, which for the body is empty
abbrev pub query_manual_edit_ref : Host → Body → Text → Option (List ℕ)
query_manual_edit_ref host body ref =
    query_parts host body (filter (λ p. not (is_empty p)) (map trim (split b'>' ref)))
