-- ===== src/Target/Resolve.antt =====
-- `describeAgentTargetCandidate` and `resolveAgentTargetElement`: the one element of the page that
-- a target means, or why there is none.
pub mod Laws
use nafir.Base.{
  ℕ, zero, suc, ◌+◌, Bool, true, false, not, ◌&&◌, ◌||◌, Option, none, some, List, [], ◌∷◌, map,
  if◌then◌else◌, length, take, filter, ltb, Text, codes, is_empty, index_of, starts_with, trim,
}
use nafir.Base.Int.{ℤ, pos}

-- What the code reads of an element; `pickable` is the answer of the function with that name.
pub record Element : Type 0 where
  pub tag_name : Text
  pub id : Text
  pub class_list : List Text
  pub text_content : Text
  pub pickable : Bool

-- `querySelectorAll` of the page at one time, `none` where it throws, and `toLowerCase`.
pub record Page : Type 0 where
  pub query_selector_all : Text → Option (List Element)
  pub lower : Text → Text

-- A request. An empty `text` is a missing one, and `index` is there if it is an integer.
pub record Message : Type 0 where
  pub target_id : Text
  pub selector : Text
  pub text : Text
  pub index : Option ℤ
  pub dry_run : Bool

pub record Description : Type 0 where
  pub tag : Text
  pub id : Option Text
  pub classes : List Text
  pub text : Text

unfoldable pub describe_agent_target_candidate : Page → Element → Description
describe_agent_target_candidate page el = record {
  tag = page.lower el.tag_name;
  id = if is_empty el.id then none else some el.id;
  classes = filter (λ c. not (starts_with c (codes "impeccable-"))) el.class_list;
  text = take 80 (trim el.text_content);
}

-- The `error` of a result, with the counts and the candidates that it carries.
pub data Miss : Type 0 where
  invalid_selector : Miss
  no_match : ℕ → Miss
  index_out_of_range : ℕ → Miss
  ambiguous : ℕ → List Description → Miss

pub data Resolution : Type 0 where
  found : Element → ℕ → Resolution
  missed : Miss → Resolution

abbrev pub is_some : Option ℕ → Bool
is_some none = false
is_some (some _) = true

-- `(el.textContent || '').toLowerCase().includes(needle)`
pub has_text : Page → Text → Element → Bool
has_text page needle el = is_some (index_of needle (page.lower el.text_content))

pub candidates_of : Page → Message → List Element → List Element
unfolding has_text
candidates_of page msg matched =
    let pickables = filter (λ el. el.pickable) matched in
    if is_empty msg.text then pickables else filter (has_text page (page.lower msg.text)) pickables

pub nth : ℕ → List Element → Option Element
nth n [] = none
nth zero (el ∷ els) = some el
nth (suc n) (el ∷ els) = nth n els

-- `candidates[index - 1]`
pub element_at : ℤ → List Element → Option Element
unfolding nth
element_at (pos (suc n)) els = nth n els
element_at _ els = none

pub by_index : ℕ → Option Element → Resolution
by_index count none = missed (index_out_of_range count)
by_index count (some el) = found el count

-- What is left once there is a candidate.
pub choose : Page → Option ℤ → Element → List Element → Resolution
unfolding by_index element_at
choose page (some index) el els = by_index (length (el ∷ els)) (element_at index (el ∷ els))
choose page none el [] = found el 1
choose page none el els =
    missed (
      ambiguous (length (el ∷ els))
        (map (describe_agent_target_candidate page) (take 8 (el ∷ els))))

pub among : Page → Message → ℕ → List Element → Resolution
unfolding choose
among page msg raw [] = missed (no_match raw)
among page msg raw (el ∷ els) = choose page msg.index el els

pub resolved : Page → Message → Option (List Element) → Resolution
unfolding among candidates_of
resolved page msg none = missed invalid_selector
resolved page msg (some matched) = among page msg (length matched) (candidates_of page msg matched)

unfoldable pub resolve_agent_target_element : Page → Message → Resolution
unfolding resolved
resolve_agent_target_element page msg = resolved page msg (page.query_selector_all msg.selector)
