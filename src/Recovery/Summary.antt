-- ===== src/Recovery/Summary.antt =====
-- The tests on a session that the browser saved, or that the helper reports.
use nafir.Base.{
  Bool, true, false, not, ◌&&◌, ◌||◌, ◌==◌, Option, none, some, List, [], ◌∷◌, if◌then◌else◌, find?,
  Text, codes, is_empty, text_eq, contains,
}
use nafir.Value.{
  Value, null, bool, int, neg, other, str, arr, obj, Fields, end, field, property, truthy,
  text_or_empty,
}

-- `location.pathname`, the path of `new URL(value, location.origin)`, `none` where it throws,
-- `toUpperCase`, `Number(v) || 0` and `Number(v) > 0`.
pub record Host : Type 0 where
  pub pathname : Text
  pub url_path : Text → Option Text
  pub upper : Text → Text
  pub number_or_zero : Option Value → Value
  pub is_positive : Option Value → Bool

-- `a === b`; two parsed objects or arrays are not the same one.
abbrev pub same_value : Value → Value → Bool
same_value null null = true
same_value (bool true) (bool b) = b
same_value (bool false) (bool b) = not b
same_value (int n) (int m) = n == m
same_value (neg n) (neg m) = n == m
same_value (other s) (other t) = text_eq s t
same_value (str s) (str t) = text_eq s t
same_value _ _ = false

abbrev pub same_option : Option Value → Option Value → Bool
same_option (some v) (some w) = same_value v w
same_option none none = true
same_option _ _ = false

-- `v?.k`
abbrev pub property? : Text → Option Value → Option Value
property? k none = none
property? k (some v) = property k v

-- `a || b`
abbrev pub or_else : Option Value → Option Value → Option Value
or_else v w = if truthy v then v else w

-- `value.split(/[?#]/)[0]`
pub before_query : Text → Text
before_query [] = []
before_query (c ∷ s) =
    let rest = before_query s in if (c == b'?') || (c == b'#') then [] else c ∷ rest

abbrev pub nonempty : Text → Option Text
nonempty [] = none
nonempty (c ∷ t) = some (c ∷ t)

pub path_or_text : Text → Option Text → Option Text
unfolding before_query
path_or_text value (some path) = some path
path_or_text value none = nonempty (before_query value)

pub normalize_page_path : Host → Option Value → Option Text
unfolding path_or_text
normalize_page_path host (some (str (c ∷ t))) = path_or_text (c ∷ t) (host.url_path (c ∷ t))
normalize_page_path host _ = none

-- `!path || path === location.pathname`
abbrev pub is_here : Host → Option Text → Bool
is_here host none = true
is_here host (some path) = is_empty path || text_eq path host.pathname

unfoldable pub page_matches_current : Host → Option Value → Bool
unfolding normalize_page_path
page_matches_current host value = is_here host (normalize_page_path host value)

-- The alternatives of the regular expression.
abbrev pub terminal_phases : List Text
terminal_phases =
    codes "completed"
    ∷ codes "discarded"
    ∷ codes "discard_requested"
    ∷ codes "accept_requested"
    ∷ []

-- `ADOPTABLE_SESSION_PHASES`
abbrev pub adoptable_session_phases : List Text
adoptable_session_phases =
    codes "generate_requested" ∷ codes "variants_ready" ∷ codes "generating" ∷ codes "cycling" ∷ []

unfoldable pub is_terminal_session_summary : Value → Bool
is_terminal_session_summary session =
    contains terminal_phases (text_or_empty (property (codes "phase") session))

-- The test of `findActiveSessionSummary`.
abbrev pub is_summary_of : Host → Value → Value → Bool
is_summary_of host saved session =
    same_option (property (codes "id") session) (property (codes "id") saved)
    && page_matches_current host
        (or_else (property (codes "pageUrl") session) (property (codes "pageUrl") saved))
    && not (is_terminal_session_summary session)

-- `activeSessions` is `none` where it is no array.
unfoldable pub find_active_session_summary : Host → Value → Option (List Value) → Option Value
find_active_session_summary host saved none = none
find_active_session_summary host saved (some sessions) =
    if truthy (property (codes "id") saved) then find? (is_summary_of host saved) sessions else none

-- `v || undefined`, as a property that is there or not.
abbrev pub truthy_field : Text → Option Value → Fields → Fields
truthy_field k none fs = fs
truthy_field k (some v) fs = if truthy (some v) then field k v fs else fs

-- A property that is left out where it is `undefined`.
abbrev pub given_field : Text → Option Value → Fields → Fields
given_field k none fs = fs
given_field k (some v) fs = field k v fs

-- `v && typeof v === 'object' ? v : {}`
abbrev pub object_or_empty : Option Value → Value
object_or_empty (some (obj fs)) = obj fs
object_or_empty (some (arr vs)) = arr vs
object_or_empty _ = obj end

unfoldable pub server_session_as_saved_shape : Host → Value → Value
server_session_as_saved_shape host session =
    let own : Text → Option Value = λ k. property k session in
    let count : Text → Value = λ k. host.number_or_zero (own k) in
    obj (
      given_field (codes "id") (own (codes "id")) (
        field (codes "state") (str (codes "GENERATING")) (
          field (codes "expected") (count (codes "expectedVariants")) (
            field (codes "arrived") (count (codes "arrivedVariants")) (
              field (codes "visible") (count (codes "visibleVariant")) (
                truthy_field (codes "sourceFile") (own (codes "sourceFile")) (
                  truthy_field (codes "previewFile") (own (codes "previewFile")) (
                    truthy_field (codes "previewMode") (own (codes "previewMode")) (
                      truthy_field (codes "pageUrl") (own (codes "pageUrl")) (
                        field (codes "paramValues") (object_or_empty (own (codes "paramValues")))
                          end))))))))))
