-- ===== src/Rows.antt =====
-- The texts of an element that can be edited in the page, live-browser.js:
-- `collectEditableTextRows`, `wrapMixedContentTextNodes` and its inverse, and `hasTextRows`.
pub mod Texts
pub mod Unwrap
pub mod Offered
mod Tests
use nafir.Base.{
  ℕ, zero, suc, Bool, true, false, not, ◌&&◌, ◌||◌, List, [], ◌∷◌, ◌++◌, if◌then◌else◌, Text, codes,
  is_empty, is_space, all, any, contains,
}

-- The name of an element in lower case, whether it has the attribute `contenteditable`, whether it
-- is the tool's own, and whether it is a span that the tool wraps a text with.
pub record Element : Type 0 where
  pub tag : Text
  pub editable : Bool
  pub own : Bool
  pub wraps : Bool

-- A text node, a node of another kind (as a comment), or an element with its child nodes.
mutual
  pub data Node : Type 0 where
    text : Text → Node
    other : Node
    element : Element → Nodes → Node

  pub data Nodes : Type 0 where
    nil : Nodes
    cons : Node → Nodes → Nodes

-- `MIXED_WRAP_SKIP`
abbrev pub mixed_wrap_skip : List Text
mixed_wrap_skip =
    codes "script"
    ∷ codes "style"
    ∷ codes "template"
    ∷ codes "noscript"
    ∷ codes "svg"
    ∷ codes "code"
    ∷ codes "pre"
    ∷ []

abbrev pub is_skipped : Element → Bool
is_skipped e = contains mixed_wrap_skip e.tag

-- `!/\S/.test(text)`
abbrev pub is_blank : Text → Bool
is_blank t = all is_space t

-- There are text nodes only; a text node is not blank; a node is an element.
abbrev pub all_text : Nodes → Bool
all_text nil = true
all_text (cons (text t) ns) = all_text ns
all_text (cons other ns) = false
all_text (cons (element e cs) ns) = false

abbrev pub some_text : Nodes → Bool
some_text nil = false
some_text (cons (text t) ns) = not (is_blank t) || some_text ns
some_text (cons other ns) = some_text ns
some_text (cons (element e cs) ns) = some_text ns

abbrev pub some_element : Nodes → Bool
some_element nil = false
some_element (cons (text t) ns) = some_element ns
some_element (cons other ns) = some_element ns
some_element (cons (element e cs) ns) = true

-- `textContent` of an element with these child nodes
abbrev mutual
  pub text_content : Nodes → Text
  text_content nil = []
  text_content (cons n ns) = text_of n ++ text_content ns

  pub text_of : Node → Text
  text_of (text t) = t
  text_of other = []
  text_of (element e cs) = text_content cs

-- A row: the element, by the places of the child nodes on the way to it, and its text.
pub record Row : Type 0 where
  pub place : List ℕ
  pub text : Text

abbrev pub own_row : List ℕ → Nodes → List Row
own_row place cs =
    if all_text cs && some_text cs
    then record { place = place; text = text_content cs } ∷ []
    else []

-- `visit` of `collectEditableTextRows`, for the root or an element below it, and for its children.
abbrev mutual
  pub visit : Bool → List ℕ → Node → List Row
  visit root place (text t) = []
  visit root place other = []
  visit root place (element e cs) =
      let below = visit_all place 0 cs in
      if is_skipped e
      then []
      else if e.editable
      then []
      else if not root && e.own
      then []
      else own_row place cs ++ below

  pub visit_all : List ℕ → ℕ → Nodes → List Row
  visit_all place i nil = []
  visit_all place i (cons n ns) = visit false (place ++ i ∷ []) n ++ visit_all place (suc i) ns

unfoldable pub collect_editable_text_rows : Node → List Row
collect_editable_text_rows root = visit true [] root

abbrev pub wrapper : Element
wrapper = record { tag = codes "span"; editable = false; own = false; wraps = true }

abbrev pub wrapped_text : Bool → Text → Node
wrapped_text mixed t =
    if mixed && not (is_blank t) then element wrapper (cons (text t) nil) else text t

-- `wrapMixedContentTextNodes`, and what it does to the child nodes of an element with mixed content,
-- or of another one.
abbrev mutual
  pub wrap : Node → Node
  wrap (text t) = text t
  wrap other = other
  wrap (element e cs) =
      let inner = wrap_all (some_text cs && some_element cs) cs in
      if is_skipped e then element e cs else if e.editable then element e cs else element e inner

  pub wrap_all : Bool → Nodes → Nodes
  wrap_all mixed nil = nil
  wrap_all mixed (cons (text t) ns) = cons (wrapped_text mixed t) (wrap_all mixed ns)
  wrap_all mixed (cons other ns) = cons other (wrap_all mixed ns)
  wrap_all mixed (cons (element e cs) ns) =
      let inner = wrap (element e cs) in
      cons (if e.wraps then element e cs else inner) (wrap_all mixed ns)

unfoldable pub wrap_mixed_content_text_nodes : Node → Node
wrap_mixed_content_text_nodes root = wrap root

-- A text node in front of nodes that are normalized.
abbrev pub put_text : Text → Nodes → Nodes
put_text [] ns = ns
put_text (c ∷ t) (cons (text s) ns) = cons (text (c ∷ (t ++ s))) ns
put_text (c ∷ t) ns = cons (text (c ∷ t)) ns

-- The node in front of others, merged with a text node there if the parent is normalized.
abbrev pub put_node : Bool → Node → Nodes → Nodes
put_node true (text t) ns = put_text t ns
put_node true other ns = cons other ns
put_node true (element e cs) ns = cons (element e cs) ns
put_node false n ns = cons n ns

abbrev pub some_wrap : Nodes → Bool
some_wrap nil = false
some_wrap (cons (text t) ns) = some_wrap ns
some_wrap (cons other ns) = some_wrap ns
some_wrap (cons (element e cs) ns) = e.wraps || some_wrap ns

-- `unwrapMixedContentTextNodes`: a parent of a wrapping span is normalized, with all below it.
abbrev mutual
  pub unwrap : Bool → Node → Node
  unwrap deep (text t) = text t
  unwrap deep other = other
  unwrap deep (element e cs) = element e (unwrap_all (deep || some_wrap cs) cs)

  pub unwrap_all : Bool → Nodes → Nodes
  unwrap_all deep nil = nil
  unwrap_all deep (cons (text t) ns) = put_node deep (text t) (unwrap_all deep ns)
  unwrap_all deep (cons other ns) = put_node deep other (unwrap_all deep ns)
  unwrap_all deep (cons (element e cs) ns) =
      let inner = unwrap deep (element e cs) in
      let rest = unwrap_all deep ns in
      put_node deep (if e.wraps then text (text_content cs) else inner) rest

unfoldable pub unwrap_mixed_content_text_nodes : Node → Node
unwrap_mixed_content_text_nodes root = unwrap false root

-- `check` of `hasTextRows`, for the root or an element below it, and for its children.
abbrev mutual
  pub check : Bool → Node → Bool
  check root (text t) = false
  check root other = false
  check root (element e cs) =
      let below = check_all cs in
      if is_skipped e
      then false
      else if not root && e.own
      then false
      else if some_text cs
      then true
      else below

  pub check_all : Nodes → Bool
  check_all nil = false
  check_all (cons n ns) = check false n || check_all ns

unfoldable pub has_text_rows : Node → Bool
has_text_rows el = check true el
