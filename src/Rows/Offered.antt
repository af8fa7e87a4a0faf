-- ===== src/Rows/Offered.antt =====
-- The editing of texts is offered exactly where it finds one.
use nafir.Base.{
  ◌≡◌, Bool, true, false, not, ◌&&◌, ◌||◌, List, [], ◌∷◌, ◌++◌, map, Text, arith, refl, ap, sym,
  ◌∙◌, Bool-cases, inl, inr,
}
use nafir.Rows.{
  Node, Nodes, text, other, element, nil, cons, is_blank, all_text, some_text, some_element, Row,
  collect_editable_text_rows, wrap_mixed_content_text_nodes, check, check_all, has_text_rows,
}
use nafir.Rows.Texts.{is_fresh, own_texts, node_texts, editable_texts, texts_below, texts-collect}

-- There is no node but texts and elements, and no element has the attribute `contenteditable`.
abbrev mutual
  pub is_plain : Node → Bool
  is_plain (text t) = true
  is_plain other = false
  is_plain (element e cs) = not e.editable && all_plain cs

  pub all_plain : Nodes → Bool
  all_plain nil = true
  all_plain (cons n ns) = is_plain n && all_plain ns

abbrev pub has_any : {A : Type 0} → List A → Bool
has_any [] = false
has_any (x ∷ xs) = true

has_any-append : (a b : List Text) → has_any (a ++ b) ≡ (has_any a || has_any b)
has_any-append [] b = refl
has_any-append (x ∷ a) b = refl

has_any-map : (rows : List Row) → has_any (map (λ (r : Row). r.text) rows) ≡ has_any rows
has_any-map [] = refl
has_any-map (r ∷ rows) = refl

plain-all_text : (cs : Nodes) → all_plain cs ≡ true → all_text cs ≡ not (some_element cs)
plain-all_text nil h = refl
plain-all_text (cons (text t) ns) h = plain-all_text ns h
plain-all_text (cons other ns) h = cc
plain-all_text (cons (element e cs) ns) h = refl

has_any-own_texts : (cs : Nodes) → has_any (own_texts cs) ≡ (all_text cs && some_text cs)
has_any-own_texts cs = elim (Bool-cases (all_text cs && some_text cs)) [
  | inl t ↦ rw t refl
  | inr f ↦ rw f refl
]

has_any-node_texts :
    (mixed : Bool) (t : Text) → has_any (node_texts mixed t) ≡ (mixed && not (is_blank t))
has_any-node_texts mixed t = elim (Bool-cases (mixed && not (is_blank t))) [
  | inl e ↦ rw e refl
  | inr e ↦ rw e refl
]

either : (a b c : Bool) {x y : Bool} → a ≡ x → (b || c) ≡ y → ((a || b) || c) ≡ (x || y)
either true b c h k = ground (arith, h)
either false b c h k = ground (arith, h, k)

mutual
  check-texts :
      (root : Bool) (n : Node) → is_plain n ≡ true → check root n ≡ has_any (editable_texts root n)
  check-texts root (text t) h = refl
  check-texts root other h = refl
  check-texts root (element e cs) h =
      let below = check_all-texts (some_element cs) cs (ground (arith, h)) in
      let both = has_any-append (own_texts cs) (texts_below (some_element cs) cs) in
      let own = has_any-own_texts cs in
      let only = plain-all_text cs (ground (arith, h)) in ground (arith, h, below, both, own, only)

  check_all-texts :
      (mixed : Bool) (ns : Nodes)
      → all_plain ns ≡ true
      → (check_all ns || (mixed && some_text ns)) ≡ has_any (texts_below mixed ns)
  check_all-texts mixed nil h = ground arith
  check_all-texts mixed (cons (text t) ns) h = ground (
    arith,
    has_any-append (node_texts mixed t) (texts_below mixed ns),
    has_any-node_texts mixed t,
    check_all-texts mixed ns h,
  )
  check_all-texts mixed (cons other ns) h = cc
  check_all-texts mixed (cons (element e cs) ns) h =
      let first = check-texts false (element e cs) (ground (arith, h)) in
      let rest = check_all-texts mixed ns (ground (arith, h)) in
      let both = has_any-append (editable_texts false (element e cs)) (texts_below mixed ns) in
      either (check false (element e cs)) (check_all ns) (mixed && some_text ns) first rest
      ∙ sym both

-- On an element without nodes but texts and elements, without `contenteditable` and with no
-- wrapping span left from before, the texts can be edited exactly if a row is collected after the
-- texts of mixed content are wrapped.
pub has_text_rows-collect :
    (root : Node)
    → is_fresh root ≡ true
    → is_plain root ≡ true
    → has_text_rows root ≡ has_any (collect_editable_text_rows (wrap_mixed_content_text_nodes root))
unfolding has_text_rows
has_text_rows-collect root fresh plain =
    let rows = collect_editable_text_rows (wrap_mixed_content_text_nodes root) in
    check-texts true root plain ∙ ap has_any (sym (texts-collect root fresh)) ∙ has_any-map rows
