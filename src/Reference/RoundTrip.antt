-- ===== src/Reference/RoundTrip.antt =====
-- The reference of an element leads back to it.
use nafir.Base.{
  is_digit, ℕ, zero, suc, ◌≡◌, Bool, true, false, not, ◌||◌, ◌==◌, Option, none, some, List, [],
  ◌∷◌, ◌++◌, All, all, all_mono, all-take, length, if◌then◌else◌, arith, refl, ap, sym, ◌∙◌, Text,
  codes, is_empty, starts_with, starts_dark, filter, split, split-part, split-last, lacks, trim,
  trim-dark, join, map, contains, branch_true, append_assoc, text_eq_iff, text_eq_refl,
}
use mathlib.Core.Path.{subst}
use mathlib.Core.List.{reverse-append}
use nafir.Reference.{
  Host, Element, Node, Nodes, nil, cons, Body, element, elements, children, child, Segment,
  segments, document_ref_segment, document_ref_for_element, with_child, prepend, below_child,
  below_place, below_segment, query_from, query_first, query_parts, query_manual_edit_ref,
  parse_manual_edit_ref_segment, find_child, named_classes, index_among_same_tag,
  element_matches_manual_ref_segment,
}
use nafir.Reference.Parse.{all-append, in_tag_name, raw_id, raw_dotted}
use nafir.Reference.Segments.{
  IsFaithful, IsNamed, base_of, base-all, document_ref_segment-base, segment_of, parsed_tag,
  parse_manual_edit_ref_segment-document_ref_segment,
}
use nafir.Reference.Found.{Fits, find_child-index}

-- The path leads to an element, and every element on it is named.
abbrev pub LeadsThrough : Host → Nodes → List ℕ → Type 0
LeadsThrough host ns [] = Unit {0}
LeadsThrough host ns (i ∷ path) =
    (n : Node) × (child ns i ≡ some n)
    × IsNamed host (element n)
    × LeadsThrough host (children n) path

-- A child stands between its siblings.
between :
    (ns : Nodes) (i : ℕ) (n : Node)
    → child ns i ≡ some n
    → (before : List Element) × (after : List Element) × (elements ns ≡ before ++ element n ∷ after)
      × (length before ≡ i)
between nil i n h = cc
between (cons m ns) zero n h = ([], elements ns, ap (λ (e : Element). e ∷ elements ns) (cc), refl)
between (cons m ns) (suc i) n h =
    let (before, after, same, place) = between ns i n h in
    (element m ∷ before, after, ap (λ (l : List Element). element m ∷ l) same, ap suc place)

contains-more :
    (x : Text) (xs cs : List Text) → all (contains xs) cs ≡ true → all (contains (x ∷ xs)) cs ≡ true
contains-more x xs cs h = all_mono (contains xs) (contains (x ∷ xs)) cs (λ c k. ground (arith, k)) h

filter-contained : (q : Text → Bool) (xs : List Text) → all (contains xs) (filter q xs) ≡ true
filter-contained q [] = refl
filter-contained q (x ∷ xs) =
    let rest = contains-more x xs (filter q xs) (filter-contained q xs) in
    ground (arith, rest, text_eq_refl x)

segment_of-Fits : (siblings : List Element) (i : ℕ) (e : Element) → Fits (segment_of siblings i e) e
segment_of-Fits siblings i e = record {
  tag = refl;
  id = ground (arith, text_eq_refl e.id);
  classes =
      all-take (contains e.class_list) 2
        (filter (λ c. not (is_empty c || starts_with c (codes "impeccable-"))) e.class_list)
        (filter-contained (λ c. not (is_empty c || starts_with c (codes "impeccable-")))
          e.class_list);
}

find_child-own :
    (ns : Nodes) (i : ℕ) (n : Node)
    → child ns i ≡ some n
    → find_child [] (elements ns) (segment_of (elements ns) i (element n)) ≡ some i
find_child-own ns i n h =
    let (before, after, same, place) = between ns i n h in
    let e = element n in
    subst (λ l. find_child [] l (segment_of l i e) ≡ some i) (sym same)
      (subst
        (λ j. find_child [] (before ++ e ∷ after) (segment_of (before ++ e ∷ after) j e) ≡ some j)
        place
        (find_child-index (segment_of (before ++ e ∷ after) (length before) e) e before after
          (segment_of-Fits (before ++ e ∷ after) (length before) e) refl))

query_from-segments :
    (host : Host) (ns : Nodes) (path : List ℕ)
    → IsFaithful host
    → LeadsThrough host ns path
    → query_from host ns (segments host ns path) ≡ some path
query_from-segments host ns [] faithful h = refl
query_from-segments host ns (i ∷ path) faithful (n, there, named, below) =
    let e = element n in
    let rest = segments host (children n) path in
    let more : Node → List Text = λ m.
      document_ref_segment host (elements ns) i (element m) ∷ segments host (children m) path in
    let query : Nodes → Option (List ℕ) = λ ns'. query_from host ns' rest in
    ap (λ (o : Option Node). query_from host ns (with_child more o)) there
    ∙ ap (below_segment query ns)
        (parse_manual_edit_ref_segment-document_ref_segment host (elements ns) i e faithful named)
    ∙ ap (below_place query ns) (find_child-own ns i n there)
    ∙ ap (below_child query i) there
    ∙ ap (prepend i) (query_from-segments host (children n) path faithful below)

-- A part that `split`, `trim` and `filter` leave as it is.
abbrev IsPart : Text → Type 0
IsPart p = (lacks b'>' p ≡ true) × (trim p ≡ p) × (is_empty p ≡ false)

starts_dark-name : (s : Text) → all in_tag_name s ≡ true → starts_dark s ≡ true
starts_dark-name [] h = refl
starts_dark-name (c ∷ s) h = ground (arith, h)

starts_dark-append :
    (s rest : Text) → is_empty s ≡ false → starts_dark s ≡ true → starts_dark (s ++ rest) ≡ true
starts_dark-append [] rest h k = cc
starts_dark-append (c ∷ s) rest h k = k

some-append : (s rest : Text) → is_empty s ≡ false → is_empty (s ++ rest) ≡ false
some-append [] rest h = cc
some-append (c ∷ s) rest h = refl

segment-IsPart :
    (host : Host) (siblings : List Element) (i : ℕ) (e : Element)
    → IsFaithful host
    → IsNamed host e
    → IsPart (document_ref_segment host siblings i e)
segment-IsPart host siblings i e faithful named =
    let digits = host.show (index_among_same_tag siblings i e) in
    let suffix : Text = raw_id e.id ++ raw_dotted (named_classes e) in
    let opened = codes ":nth-of-type(" in
    let start : Text = base_of e ++ (opened ++ digits) in
    let text : document_ref_segment host siblings i e ≡ start ++ codes ")" =
      document_ref_segment-base host siblings i e named
      ∙ ap (λ (l : Text). base_of e ++ l) (sym (append_assoc opened digits (codes ")")))
      ∙ sym (append_assoc (base_of e) (opened ++ digits) (codes ")")) in
    let no_angle : lacks b'>' start ≡ true =
      all-append (λ c. not (c == b'>')) (base_of e) (opened ++ digits)
        (base-all host e named (λ c. not (c == b'>')) refl refl (λ c h. ground (arith, h)))
        (all-append (λ c. not (c == b'>')) opened digits refl
          (all_mono is_digit (λ c. not (c == b'>')) digits (λ c h. ground (arith, h))
            (faithful.digits (index_among_same_tag siblings i e)))) in
    let some_base = some-append e.tag suffix named.some_tag in
    let some_start = some-append (base_of e) (opened ++ digits) some_base in
    let dark =
      starts_dark-append (base_of e) (opened ++ digits) some_base
        (starts_dark-append e.tag suffix named.some_tag (starts_dark-name e.tag named.tag)) in
    subst IsPart (sym text) (
      all-append (λ c. not (c == b'>')) start (codes ")") no_angle refl,
      trim-dark (start ++ codes ")") (starts_dark-append start (codes ")") some_start dark)
          (ap starts_dark (reverse-append start (codes ")"))),
      some-append start (codes ")") some_start,
    )

segments-IsPart :
    (host : Host) (ns : Nodes) (path : List ℕ)
    → IsFaithful host
    → LeadsThrough host ns path
    → All IsPart (segments host ns path)
segments-IsPart host ns [] faithful h = tt
segments-IsPart host ns (i ∷ path) faithful (n, there, named, below) =
    let more : Node → List Text = λ m.
      document_ref_segment host (elements ns) i (element m) ∷ segments host (children m) path in
    subst (λ (o : Option Node). All IsPart (with_child more o)) (sym there)
      (
        segment-IsPart host (elements ns) i (element n) faithful named,
        segments-IsPart host (children n) path faithful below,
      )

split-join :
    (p : Text) (ps : List Text)
    → All IsPart (p ∷ ps)
    → split b'>' (join (codes ">") (p ∷ ps)) ≡ p ∷ ps
split-join p [] (h, t) = split-last b'>' p h.0
split-join p (q ∷ ps) (h, t) =
    ap (split b'>') (append_assoc p (codes ">") (join (codes ">") (q ∷ ps)))
    ∙ split-part b'>' p (join (codes ">") (q ∷ ps)) h.0
    ∙ ap (λ (l : List Text). p ∷ l) (split-join q ps t)

kept-parts : (ps : List Text) → All IsPart ps → filter (λ p. not (is_empty p)) (map trim ps) ≡ ps
kept-parts [] h = refl
kept-parts (p ∷ ps) ((clean, same, full), t) =
    let rest = filter (λ l. not (is_empty l)) (map trim ps) in
    subst (λ (l : Text). (if not (is_empty l) then l ∷ rest else rest) ≡ p ∷ ps) (sym same)
      (branch_true (λ (l : List Text). l ≡ p ∷ ps) (not (is_empty p)) rest (ap not full)
        (ap (λ (l : List Text). p ∷ l) (kept-parts ps t)))

body_segment : Segment
body_segment = record { tag = codes "body"; id = []; classes = []; nth = 0 }

parse-body :
    (host : Host)
    → host.lower (codes "body") ≡ codes "body"
    → parse_manual_edit_ref_segment host (codes "body") ≡ some body_segment
unfolding parse_manual_edit_ref_segment body_segment split
parse-body host lowered = ap (parsed_tag (codes "body") 0) lowered

-- If the names on the path have none of the units that references use, the reference of an element
-- leads back to this element, whatever stands beside it.
pub query_manual_edit_ref-document_ref_for_element :
    (host : Host) (body : Body) (path : List ℕ)
    → IsFaithful host
    → host.lower (codes "body") ≡ codes "body"
    → body.own.tag ≡ codes "body"
    → LeadsThrough host body.kids path
    → query_manual_edit_ref host body (document_ref_for_element host body.kids path) ≡ some path
unfolding body_segment
query_manual_edit_ref-document_ref_for_element host body path faithful lowered own h =
    let segs = segments host body.kids path in
    let parts : All IsPart (codes "body" ∷ segs) = (
      (refl, trim-dark (codes "body") refl refl, refl),
      segments-IsPart host body.kids path faithful h,
    ) in
    ap (λ (l : List Text). query_parts host body (filter (λ p. not (is_empty p)) (map trim l)))
      (split-join (codes "body") segs parts)
    ∙ ap (query_parts host body) (kept-parts (codes "body" ∷ segs) parts)
    ∙ ap (query_first host body (codes "body") segs) (parse-body host lowered)
    ∙ branch_true (λ (r : Option (List ℕ)). r ≡ query_from host body.kids segs)
        (element_matches_manual_ref_segment body.own 1 body_segment) none
        (ground (arith, (text_eq_iff body.own.tag (codes "body")).1 own)) refl
    ∙ query_from-segments host body.kids path faithful h
