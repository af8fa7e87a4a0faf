-- ===== src/Reference/Segments.antt =====
-- The segment of an element is parsed to what it says of the element.
use nafir.Base.{
  span, is_digit, ℕ, ◌≡◌, Bool, true, false, not, ◌||◌, ◌==◌, Option, none, some, List, [], ◌∷◌,
  ◌++◌, all, all_mono, all-filter, all-filter_self, all-take, filter-all, length, if◌then◌else◌,
  arith, refl, ap, sym, ◌∙◌, Text, codes, is_empty, starts_with, drop, filter, split, lacks,
  branch_false, append_assoc,
}
use nafir.Reference.{
  Host, Element, Segment, number_of, in_tag, in_id, split_id, parse_manual_edit_ref_segment,
  named_classes, dotted, document_ref_id_suffix, document_ref_segment, index_among_same_tag,
}
use nafir.Reference.Parse.{
  all-append, in_name, in_tag_name, nth_text, stops, raw_id, raw_dotted, normalized-name,
  span-stops, split_nth-append, split_id-append, drop-append, dotted-raw, raw_dotted-stops,
  raw_dotted-all, split-raw_dotted, split_id-raw,
}

-- What the documentation of `String`, `Number` and `toLowerCase` says of the texts here.
pub record IsFaithful (host : Host) : Type 0 where
  pub digits : (n : ℕ) → all is_digit (host.show n) ≡ true
  pub some_digits : (n : ℕ) → is_empty (host.show n) ≡ false
  pub read_back : (n : ℕ) → host.number (host.show n) ≡ n

-- The names of an element have none of the units that the references use, and its tag is lower case.
pub record IsNamed (host : Host) (e : Element) : Type 0 where
  pub tag : all in_tag_name e.tag ≡ true
  pub some_tag : is_empty e.tag ≡ false
  pub lowered : host.lower e.tag ≡ e.tag
  pub id : all in_name e.id ≡ true
  pub classes : all (all in_name) e.class_list ≡ true

abbrev pub segment_of : List Element → ℕ → Element → Segment
segment_of siblings i e = record {
  tag = e.tag;
  id = e.id;
  classes = named_classes e;
  nth = index_among_same_tag siblings i e;
}

is_named_class : Text → Bool
is_named_class c = not (is_empty c || starts_with c (codes "impeccable-"))

named_classes-in_name :
    (e : Element)
    → all (all in_name) e.class_list ≡ true
    → all (all in_name) (named_classes e) ≡ true
unfolding is_named_class
named_classes-in_name e h =
    all-take (all in_name) 2 (filter is_named_class e.class_list)
      (all-filter (all in_name) is_named_class e.class_list h)

named_classes-some :
    (e : Element) → filter (λ c. not (is_empty c)) (named_classes e) ≡ named_classes e
unfolding is_named_class
named_classes-some e =
    filter-all (λ c. not (is_empty c)) (named_classes e)
      (all_mono is_named_class (λ c. not (is_empty c)) (named_classes e) (λ c h. ground (arith, h))
        (all-take is_named_class 2 (filter is_named_class e.class_list)
          (all-filter_self is_named_class e.class_list)))

id_suffix-raw : (e : Element) → all in_name e.id ≡ true → document_ref_id_suffix e ≡ raw_id e.id
id_suffix-raw e h = go e.id h
  where
    go :
        (id : Text)
        → all in_name id ≡ true
        → document_ref_id_suffix (record e { id = id }) ≡ raw_id id
    go [] k = refl
    go (c ∷ id) k = ap (λ (l : Text). b'#' ∷ l) (normalized-name (c ∷ id) k)

-- The text of a segment up to the index.
abbrev pub base_of : Element → Text
base_of e = e.tag ++ (raw_id e.id ++ raw_dotted (named_classes e))

pub document_ref_segment-base :
    (host : Host) (siblings : List Element) (i : ℕ) (e : Element)
    → IsNamed host e
    → document_ref_segment host siblings i e
      ≡ base_of e ++ nth_text (host.show (index_among_same_tag siblings i e))
document_ref_segment-base host siblings i e h =
    let nth = nth_text (host.show (index_among_same_tag siblings i e)) in
    let classes = named_classes e in
    ap (λ (l : Text). e.tag ++ (l ++ (dotted classes ++ nth))) (id_suffix-raw e h.id)
    ∙ ap (λ (l : Text). e.tag ++ (raw_id e.id ++ (l ++ nth)))
        (dotted-raw classes (named_classes-in_name e h.classes))
    ∙ ap (λ (l : Text). e.tag ++ l) (sym (append_assoc (raw_id e.id) (raw_dotted classes) nth))
    ∙ sym (append_assoc e.tag (raw_id e.id ++ raw_dotted classes) nth)

-- What the parser makes of the text before the index, and of the index.
abbrev pub parsed_tag : Text → ℕ → Text → Option Segment
parsed_tag base nth tag =
    if is_empty tag
    then none
    else some (record {
      tag = tag;
      id = (split_id base).1;
      classes = filter (λ c. not (is_empty c)) (split b'.' (split_id (drop (length tag) base)).0);
      nth = nth;
    })

abbrev parsed : Host → Text × Option Text → Option Segment
parsed host r = parsed_tag r.0 (number_of host r.1) (host.lower (span in_tag r.0).0)

raw_id-all : (p : ℕ → Bool) (id : Text) → p b'#' ≡ true → all p id ≡ true → all p (raw_id id) ≡ true
raw_id-all p [] h k = refl
raw_id-all p (c ∷ id) h k = ground (arith, h, k)

suffix-stops : (id : Text) (cs : List Text) → stops in_tag (raw_id id ++ raw_dotted cs) ≡ true
suffix-stops [] cs = raw_dotted-stops in_tag cs refl
suffix-stops (c ∷ id) cs = refl

module _ (host : Host) (e : Element) (named : IsNamed host e) where
  suffix : Text
  suffix = raw_id e.id ++ raw_dotted (named_classes e)

  lacks_in : (c : ℕ) (s : Text) → in_name c ≡ false → all in_name s ≡ true → lacks c s ≡ true
  lacks_in c s f h = all_mono in_name (λ x. not (x == c)) s (λ x k. ground (arith, f, k)) h

  tag-in_name : all in_name e.tag ≡ true
  tag-in_name = all_mono in_tag_name in_name e.tag (λ x k. ground (arith, k)) named.tag

  classes-in_name : all (all in_name) (named_classes e) ≡ true
  classes-in_name = named_classes-in_name e named.classes

  classes_lack : (c : ℕ) → in_name c ≡ false → all (lacks c) (named_classes e) ≡ true
  classes_lack c f =
      all_mono (all in_name) (lacks c) (named_classes e) (λ s. lacks_in c s f) classes-in_name

  split_id-suffix : split_id suffix ≡ (raw_dotted (named_classes e), e.id)
  unfolding suffix
  split_id-suffix =
      split_id-raw e.id (raw_dotted (named_classes e))
        (all_mono in_name in_id e.id (λ x k. ground (arith, k)) named.id)
        (raw_dotted-all (λ x. not (x == b'#')) (named_classes e) refl (classes_lack b'#' refl))
        (raw_dotted-stops in_id (named_classes e) refl)

  split_id-base : (split_id (base_of e)).1 ≡ e.id
  unfolding suffix
  split_id-base =
      ap (λ (r : Text × Text). r.1)
        (split_id-append e.tag suffix (lacks_in b'#' e.tag refl tag-in_name))
      ∙ ap (λ (r : Text × Text). r.1) split_id-suffix

  classes-base :
      filter (λ c. not (is_empty c)) (split b'.' (split_id (drop (length e.tag) (base_of e))).0)
      ≡ named_classes e
  unfolding suffix
  classes-base =
      let kept : List Text → List Text = filter (λ c. not (is_empty c)) in
      ap (λ (l : Text). kept (split b'.' (split_id l).0)) (drop-append e.tag suffix)
      ∙ ap (λ (r : Text × Text). kept (split b'.' r.0)) split_id-suffix
      ∙ ap kept (split-raw_dotted [] (named_classes e) refl (classes_lack b'.' refl))
      ∙ named_classes-some e

  pub base-all :
      (p : ℕ → Bool)
      → p b'.' ≡ true
      → p b'#' ≡ true
      → ((c : ℕ) → in_name c ≡ true → p c ≡ true)
      → all p (base_of e) ≡ true
  base-all p dot sign kept =
      all-append p e.tag (raw_id e.id ++ raw_dotted (named_classes e))
        (all_mono in_name p e.tag kept tag-in_name)
        (all-append p (raw_id e.id) (raw_dotted (named_classes e))
          (raw_id-all p e.id sign (all_mono in_name p e.id kept named.id))
          (raw_dotted-all p (named_classes e) dot (
            all_mono (all in_name) (all p) (named_classes e) (λ s. all_mono in_name p s kept)
              classes-in_name)))

  parsed_tag-base :
      (nth : ℕ)
      → parsed_tag (base_of e) nth (host.lower (span in_tag (base_of e)).0)
        ≡ some (record { tag = e.tag; id = e.id; classes = named_classes e; nth = nth })
  unfolding suffix
  parsed_tag-base nth =
      let read =
        span-stops in_tag e.tag suffix
          (all_mono in_tag_name in_tag e.tag (λ x k. ground (arith, k)) named.tag)
          (suffix-stops e.id (named_classes e)) in
      let segment : Text → List Text → Segment =
        λ id classes. record { tag = e.tag; id = id; classes = classes; nth = nth } in
      ap (λ (r : Text × Text). parsed_tag (base_of e) nth (host.lower r.0)) read
      ∙ ap (parsed_tag (base_of e) nth) named.lowered
      ∙ branch_false (λ (o : Option Segment). o ≡ some (segment e.id (named_classes e)))
          (is_empty e.tag) none named.some_tag
          (ap
              (λ (id : Text). some (
                segment id (
                  filter (λ c. not (is_empty c))
                    (split b'.' (split_id (drop (length e.tag) (base_of e))).0))))
              split_id-base
            ∙ ap (λ (cs : List Text). some (segment e.id cs)) classes-base)

-- The segment of an element whose names have none of the units that references use is parsed to
-- its tag, its id, the classes that it names and its index.
pub parse_manual_edit_ref_segment-document_ref_segment :
    (host : Host) (siblings : List Element) (i : ℕ) (e : Element)
    → IsFaithful host
    → IsNamed host e
    → parse_manual_edit_ref_segment host (document_ref_segment host siblings i e)
      ≡ some (segment_of siblings i e)
unfolding parse_manual_edit_ref_segment
parse_manual_edit_ref_segment-document_ref_segment host siblings i e faithful named =
    let n = index_among_same_tag siblings i e in
    let digits = host.show n in
    let base = base_of e in
    let segment : ℕ → Segment = λ nth. record (segment_of siblings i e) { nth = nth } in
    ap (parse_manual_edit_ref_segment host) (document_ref_segment-base host siblings i e named)
    ∙ ap (parsed host) (
        split_nth-append base digits
          (base-all host e named (λ c. not (c == b'(')) refl refl (λ c h. ground (arith, h)))
          (faithful.digits n) (faithful.some_digits n))
    ∙ parsed_tag-base host e named (host.number digits)
    ∙ ap (λ (nth : ℕ). some (segment nth)) (faithful.read_back n)
