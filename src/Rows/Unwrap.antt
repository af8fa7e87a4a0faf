-- ===== src/Rows/Unwrap.antt =====
-- Unwrapping takes the wrapping away again.
use nafir.Base.{
  ◌≡◌, Bool, true, false, not, ◌&&◌, ◌||◌, [], ◌∷◌, Text, is_empty, arith, refl, ap, ◌∙◌,
  append-nil, branch, branch_false,
}
use nafir.Rows.{
  Element, Node, Nodes, text, other, element, nil, cons, is_skipped, is_blank, some_text,
  some_element, text_content, wrapped_text, wrap, wrap_all, put_text, put_node, some_wrap, unwrap,
  unwrap_all, wrap_mixed_content_text_nodes, unwrap_mixed_content_text_nodes,
}
use nafir.Rows.Texts.{is_fresh, all_fresh}

abbrev pub starts_text : Nodes → Bool
starts_text nil = false
starts_text (cons (text t) ns) = true
starts_text (cons other ns) = false
starts_text (cons (element e cs) ns) = false

-- As `normalize` leaves it: no text node is empty, and none stands beside another one.
abbrev mutual
  pub is_normal : Node → Bool
  is_normal (text t) = not (is_empty t)
  is_normal other = true
  is_normal (element e cs) = all_normal cs

  pub all_normal : Nodes → Bool
  all_normal nil = true
  all_normal (cons (text t) ns) = not (is_empty t) && not (starts_text ns) && all_normal ns
  all_normal (cons other ns) = all_normal ns
  all_normal (cons (element e cs) ns) = is_normal (element e cs) && all_normal ns

put_text-front :
    (t : Text) (ns : Nodes)
    → is_empty t ≡ false
    → starts_text ns ≡ false
    → put_text t ns ≡ cons (text t) ns
put_text-front [] ns h k = cc
put_text-front (c ∷ t) nil h k = refl
put_text-front (c ∷ t) (cons (text s) ns) h k = cc
put_text-front (c ∷ t) (cons other ns) h k = refl
put_text-front (c ∷ t) (cons (element e cs) ns) h k = refl

put_node-text :
    (deep : Bool) (t : Text) (ns : Nodes)
    → all_normal (cons (text t) ns) ≡ true
    → put_node deep (text t) ns ≡ cons (text t) ns
put_node-text true t ns h = put_text-front t ns (ground (arith, h)) (ground (arith, h))
put_node-text false t ns h = refl

put_node-other : (deep : Bool) (ns : Nodes) → put_node deep other ns ≡ cons other ns
put_node-other true ns = refl
put_node-other false ns = refl

put_node-element :
    (deep : Bool) (e : Element) (cs ns : Nodes)
    → put_node deep (element e cs) ns ≡ cons (element e cs) ns
put_node-element true e cs ns = refl
put_node-element false e cs ns = refl

-- A text node, wrapped or not, in front of nodes that are unwrapped.
unwrap-wrapped_text :
    (deep mixed : Bool) (t : Text) (ns : Nodes)
    → unwrap_all deep (cons (wrapped_text mixed t) ns) ≡ put_node deep (text t) (unwrap_all deep ns)
unwrap-wrapped_text deep mixed t ns =
    branch (λ (n : Node). unwrap_all deep (cons n ns) ≡ put_node deep (text t) (unwrap_all deep ns))
      (mixed && not (is_blank t))
      (ap (λ (s : Text). put_node deep (text s) (unwrap_all deep ns)) (append-nil t)) refl

mutual
  unwrap_all-fresh :
      (deep : Bool) (ns : Nodes)
      → all_fresh ns ≡ true
      → all_normal ns ≡ true
      → unwrap_all deep ns ≡ ns
  unwrap_all-fresh deep nil h k = refl
  unwrap_all-fresh deep (cons (text t) ns) h k =
      ap (put_node deep (text t)) (unwrap_all-fresh deep ns h (ground (arith, k)))
      ∙ put_node-text deep t ns k
  unwrap_all-fresh deep (cons other ns) h k =
      ap (put_node deep other) (unwrap_all-fresh deep ns h k) ∙ put_node-other deep ns
  unwrap_all-fresh deep (cons (element e cs) ns) h k =
      branch_false (λ (n : Node). put_node deep n (unwrap_all deep ns) ≡ cons (element e cs) ns)
        e.wraps (text (text_content cs)) (ground (arith, h))
        ((λ i.
            put_node deep
              (unwrap-fresh deep (element e cs) (ground (arith, h)) (ground (arith, k)) i)
              (unwrap_all-fresh deep ns (ground (arith, h)) (ground (arith, k)) i))
          ∙ put_node-element deep e cs ns)

  unwrap-fresh :
      (deep : Bool) (n : Node) → is_fresh n ≡ true → is_normal n ≡ true → unwrap deep n ≡ n
  unwrap-fresh deep (text t) h k = refl
  unwrap-fresh deep other h k = refl
  unwrap-fresh deep (element e cs) h k =
      ap (element e) (unwrap_all-fresh (deep || some_wrap cs) cs (ground (arith, h)) k)

unwrap-front :
    (deep : Bool) (e : Element) (inner cs rest ns : Nodes)
    → e.wraps ≡ false
    → unwrap deep (element e inner) ≡ element e cs
    → unwrap_all deep rest ≡ ns
    → unwrap_all deep (cons (element e inner) rest) ≡ cons (element e cs) ns
unwrap-front deep e inner cs rest ns plain here behind =
    branch_false (λ (n : Node). put_node deep n (unwrap_all deep rest) ≡ cons (element e cs) ns)
      e.wraps (text (text_content inner)) plain
      ((λ i. put_node deep (here i) (behind i)) ∙ put_node-element deep e cs ns)

mutual
  unwrap_all-wrap_all :
      (deep mixed : Bool) (ns : Nodes)
      → all_fresh ns ≡ true
      → all_normal ns ≡ true
      → unwrap_all deep (wrap_all mixed ns) ≡ ns
  unwrap_all-wrap_all deep mixed nil h k = refl
  unwrap_all-wrap_all deep mixed (cons (text t) ns) h k =
      unwrap-wrapped_text deep mixed t (wrap_all mixed ns)
      ∙ ap (put_node deep (text t)) (unwrap_all-wrap_all deep mixed ns h (ground (arith, k)))
      ∙ put_node-text deep t ns k
  unwrap_all-wrap_all deep mixed (cons other ns) h k =
      ap (put_node deep other) (unwrap_all-wrap_all deep mixed ns h k) ∙ put_node-other deep ns
  unwrap_all-wrap_all deep mixed (cons (element e cs) ns) h k =
      let mixed' = some_text cs && some_element cs in
      let inner = wrap_all mixed' cs in
      let rest = wrap_all mixed ns in
      let plain : e.wraps ≡ false = ground (arith, h) in
      let same = unwrap-fresh deep (element e cs) (ground (arith, h)) (ground (arith, k)) in
      let behind = unwrap_all-wrap_all deep mixed ns (ground (arith, h)) (ground (arith, k)) in
      let below =
        unwrap_all-wrap_all (deep || some_wrap inner) mixed' cs (ground (arith, h))
          (ground (arith, k)) in
      let Undone : Node → Type 0 = λ n. unwrap_all deep (cons n rest) ≡ cons (element e cs) ns in
      branch_false Undone e.wraps (element e cs) plain (
        branch Undone (is_skipped e) (unwrap-front deep e cs cs rest ns plain same behind) (
          branch Undone e.editable (unwrap-front deep e cs cs rest ns plain same behind)
            (unwrap-front deep e inner cs rest ns plain (ap (element e) below) behind)))

  unwrap-wrap :
      (deep : Bool) (n : Node) → is_fresh n ≡ true → is_normal n ≡ true → unwrap deep (wrap n) ≡ n
  unwrap-wrap deep (text t) h k = refl
  unwrap-wrap deep other h k = refl
  unwrap-wrap deep (element e cs) h k =
      let mixed = some_text cs && some_element cs in
      let inner = wrap_all mixed cs in
      let same = unwrap-fresh deep (element e cs) h k in
      branch (λ (n : Node). unwrap deep n ≡ element e cs) (is_skipped e) same
        (branch (λ (n : Node). unwrap deep n ≡ element e cs) e.editable same
          (ap (element e)
            (unwrap_all-wrap_all (deep || some_wrap inner) mixed cs (ground (arith, h)) k)))

-- On an element that is normalized, with no wrapping span left from before, wrapping the texts of
-- mixed content and unwrapping them again changes nothing.
pub unwrap_mixed_content_text_nodes-wrap_mixed_content_text_nodes :
    (root : Node)
    → is_fresh root ≡ true
    → is_normal root ≡ true
    → unwrap_mixed_content_text_nodes (wrap_mixed_content_text_nodes root) ≡ root
unfolding unwrap_mixed_content_text_nodes wrap_mixed_content_text_nodes
unwrap_mixed_content_text_nodes-wrap_mixed_content_text_nodes root h k = unwrap-wrap false root h k
