-- ===== src/Rows/Texts.antt =====
-- The rows of an element have its texts, each once and in their order.
use nafir.Base.{
  ℕ, suc, ◌≡◌, Bool, true, false, not, ◌&&◌, ◌||◌, List, [], ◌∷◌, ◌++◌, map, if◌then◌else◌, Text,
  arith, refl, ap, sym, ◌∙◌, append-nil, Bool-cases, inl, inr, branch, branch_true, branch_both,
  branch_false,
}
use mathlib.Core.Path.{subst}
use nafir.Rows.{
  Node, Nodes, text, other, element, nil, cons, is_skipped, is_blank, all_text, some_text,
  some_element, text_content, Row, own_row, visit, visit_all, collect_editable_text_rows,
  wrapped_text, wrap, wrap_all, wrap_mixed_content_text_nodes,
}

-- No element is a span that wraps a text.
abbrev mutual
  pub is_fresh : Node → Bool
  is_fresh (text t) = true
  is_fresh other = true
  is_fresh (element e cs) = not e.wraps && all_fresh cs

  pub all_fresh : Nodes → Bool
  all_fresh nil = true
  all_fresh (cons n ns) = is_fresh n && all_fresh ns

-- The texts that can be edited: of an element with other elements in it each text node that is not
-- blank; of another one its whole text, if it has text nodes only and not only blank ones.
abbrev pub own_texts : Nodes → List Text
own_texts cs = if all_text cs && some_text cs then text_content cs ∷ [] else []

abbrev pub node_texts : Bool → Text → List Text
node_texts mixed t = if mixed && not (is_blank t) then t ∷ [] else []

abbrev mutual
  pub editable_texts : Bool → Node → List Text
  editable_texts root (text t) = []
  editable_texts root other = []
  editable_texts root (element e cs) =
      let below = texts_below (some_element cs) cs in
      if is_skipped e
      then []
      else if e.editable
      then []
      else if not root && e.own
      then []
      else own_texts cs ++ below

  pub texts_below : Bool → Nodes → List Text
  texts_below mixed nil = []
  texts_below mixed (cons (text t) ns) = node_texts mixed t ++ texts_below mixed ns
  texts_below mixed (cons other ns) = texts_below mixed ns
  texts_below mixed (cons (element e cs) ns) =
      editable_texts false (element e cs) ++ texts_below mixed ns

abbrev texts_of : List Row → List Text
texts_of rows = map (λ (r : Row). r.text) rows

texts_of-append : (a b : List Row) → texts_of (a ++ b) ≡ texts_of a ++ texts_of b
texts_of-append [] b = refl
texts_of-append (r ∷ a) b = ap (λ (l : List Text). r.text ∷ l) (texts_of-append a b)

some_element-wrapped :
    (mixed : Bool) (cs : Nodes) → some_element cs ≡ true → all_text (wrap_all mixed cs) ≡ false
some_element-wrapped mixed nil h = cc
some_element-wrapped mixed (cons (text t) ns) h =
    branch (λ (n : Node). all_text (cons n (wrap_all mixed ns)) ≡ false) (mixed && not (is_blank t))
      refl (some_element-wrapped mixed ns h)
some_element-wrapped mixed (cons other ns) h = refl
some_element-wrapped mixed (cons (element e cs) ns) h =
    let rest = wrap_all mixed ns in
    let is_not_text : Node → Type 0 = λ n. all_text (cons n rest) ≡ false in
    branch is_not_text e.wraps refl
      (branch is_not_text (is_skipped e) refl (branch is_not_text e.editable refl refl))

no_element-wrapped : (cs : Nodes) → some_element cs ≡ false → wrap_all false cs ≡ cs
no_element-wrapped nil h = refl
no_element-wrapped (cons (text t) ns) h = ap (cons (text t)) (no_element-wrapped ns h)
no_element-wrapped (cons other ns) h = ap (cons other) (no_element-wrapped ns h)
no_element-wrapped (cons (element e cs) ns) h = cc

no_text-texts : (cs : Nodes) → some_text cs ≡ false → texts_below true cs ≡ texts_below false cs
no_text-texts nil h = refl
no_text-texts (cons (text t) ns) h =
    branch_false (λ (l : List Text). l ++ texts_below true ns ≡ texts_below false ns)
      (not (is_blank t)) (t ∷ []) (ground (arith, h)) (no_text-texts ns (ground (arith, h)))
no_text-texts (cons other ns) h = no_text-texts ns h
no_text-texts (cons (element e cs) ns) h =
    ap (λ (l : List Text). editable_texts false (element e cs) ++ l) (no_text-texts ns h)

text-texts :
    (mixed : Bool) (place : List ℕ) (t : Text)
    → texts_of (visit false place (wrapped_text mixed t)) ≡ node_texts mixed t
text-texts mixed place t = elim (Bool-cases (mixed && not (is_blank t))) [
  | inl wrapped ↦ rw wrapped (
      branch_true (λ (rows : List Row). texts_of (rows ++ []) ≡ t ∷ [])
        (true && (not (is_blank t) || false)) [] (ground (arith, wrapped))
        (ap (λ (s : Text). s ∷ []) (append-nil t)))
  | inr plain ↦ rw plain refl
]

some_element-mixed : (cs : Nodes) → some_element cs ≡ true → all_text cs ≡ false
some_element-mixed nil h = cc
some_element-mixed (cons (text t) ns) h = some_element-mixed ns h
some_element-mixed (cons other ns) h = refl
some_element-mixed (cons (element e cs) ns) h = refl

own_row-same : (place : List ℕ) (cs : Nodes) → texts_of (own_row place cs) ≡ own_texts cs
own_row-same place cs = elim (Bool-cases (all_text cs && some_text cs)) [
  | inl t ↦ rw t refl
  | inr f ↦ rw f refl
]

own_row-texts :
    (mixed : Bool) (place : List ℕ) (cs : Nodes)
    → (some_element cs ≡ false → mixed ≡ false)
    → texts_of (own_row place (wrap_all mixed cs)) ≡ own_texts cs
own_row-texts mixed place cs h = elim (Bool-cases (some_element cs)) [
  | inl some ↦
      branch_false (λ (rows : List Row). texts_of rows ≡ own_texts cs)
        (all_text (wrap_all mixed cs) && some_text (wrap_all mixed cs)) _
        (ground (arith, some_element-wrapped mixed cs some))
        (branch_false (λ (ts : List Text). [] ≡ ts) (all_text cs && some_text cs)
          (text_content cs ∷ []) (ground (arith, some_element-mixed cs some)) refl)
  | inr none ↦
      subst (λ (b : Bool). texts_of (own_row place (wrap_all b cs)) ≡ own_texts cs) (sym (h none))
        (ap (λ (ns : Nodes). texts_of (own_row place ns)) (no_element-wrapped cs none)
          ∙ own_row-same place cs)
]

texts-mixed :
    (cs : Nodes)
    → texts_below (some_text cs && some_element cs) cs ≡ texts_below (some_element cs) cs
texts-mixed cs = elim (Bool-cases (some_text cs)) [
  | inl some ↦ rw some refl
  | inr none ↦ rw none (elim (Bool-cases (some_element cs)) [
    | inl t ↦ rw t (sym (no_text-texts cs none))
    | inr f ↦ rw f refl
  ])
]

inside-texts :
    (place : List ℕ) (cs : Nodes)
    → (let mixed = some_text cs && some_element cs in
        texts_of (visit_all place 0 (wrap_all mixed cs)) ≡ texts_below mixed cs)
    → (let inner = wrap_all (some_text cs && some_element cs) cs in
        texts_of (own_row place inner ++ visit_all place 0 inner)
        ≡ own_texts cs ++ texts_below (some_element cs) cs)
inside-texts place cs below =
    let mixed = some_text cs && some_element cs in
    let inner = wrap_all mixed cs in
    texts_of-append (own_row place inner) (visit_all place 0 inner)
    ∙ ap (λ (l : List Text). l ++ texts_of (visit_all place 0 inner))
        (own_row-texts mixed place cs (λ f. ground (arith, f)))
    ∙ ap (λ (l : List Text). own_texts cs ++ l) (below ∙ texts-mixed cs)

mutual
  visit-texts :
      (root : Bool) (place : List ℕ) (n : Node)
      → is_fresh n ≡ true
      → texts_of (visit root place (wrap n)) ≡ editable_texts root n
  visit-texts root place (text t) h = refl
  visit-texts root place other h = refl
  visit-texts root place (element e cs) h = elim (Bool-cases (is_skipped e)) [
    | inl skipped ↦ rw (skipped, skipped) refl
    | inr kept ↦ rw kept (elim (Bool-cases e.editable) [
      | inl editable ↦ rw (editable, kept) refl
      | inr plain ↦
          rw (plain, kept)
            (branch_both (λ (rows : List Row) (ts : List Text). texts_of rows ≡ ts)
              (not root && e.own) refl
              (inside-texts place cs
                (visit_all-texts (some_text cs && some_element cs) place 0 cs (ground (arith, h)))))
    ])
  ]

  visit_all-texts :
      (mixed : Bool) (place : List ℕ) (i : ℕ) (ns : Nodes)
      → all_fresh ns ≡ true
      → texts_of (visit_all place i (wrap_all mixed ns)) ≡ texts_below mixed ns
  visit_all-texts mixed place i nil h = refl
  visit_all-texts mixed place i (cons (text t) ns) h =
      let at = place ++ i ∷ [] in
      texts_of-append (visit false at (wrapped_text mixed t))
        (visit_all place (suc i) (wrap_all mixed ns))
      ∙ ap (λ (l : List Text). l ++ texts_of (visit_all place (suc i) (wrap_all mixed ns)))
          (text-texts mixed at t)
      ∙ ap (λ (l : List Text). node_texts mixed t ++ l) (visit_all-texts mixed place (suc i) ns h)
  visit_all-texts mixed place i (cons other ns) h = visit_all-texts mixed place (suc i) ns h
  visit_all-texts mixed place i (cons (element e cs) ns) h =
      let at = place ++ i ∷ [] in
      let rest = visit_all place (suc i) (wrap_all mixed ns) in
      branch_false
        (λ (n : Node).
          texts_of (visit false at n ++ rest)
          ≡ editable_texts false (element e cs) ++ texts_below mixed ns)
        e.wraps (element e cs) (ground (arith, h))
        (texts_of-append (visit false at (wrap (element e cs))) rest
          ∙ ap (λ (l : List Text). l ++ texts_of rest)
              (visit-texts false at (element e cs) (ground (arith, h)))
          ∙ ap (λ (l : List Text). editable_texts false (element e cs) ++ l)
              (visit_all-texts mixed place (suc i) ns (ground (arith, h))))

-- The rows that are collected after the texts of mixed content are wrapped have, in the order of
-- the page, exactly the texts that can be edited, if no wrapping span is left from before.
pub texts-collect :
    (root : Node)
    → is_fresh root ≡ true
    → map (λ (r : Row). r.text) (collect_editable_text_rows (wrap_mixed_content_text_nodes root))
      ≡ editable_texts true root
unfolding collect_editable_text_rows wrap_mixed_content_text_nodes
texts-collect root h = visit-texts true [] root h
