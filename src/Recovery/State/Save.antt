-- ===== src/Recovery/State/Save.antt =====
-- `saveSession` of live-browser.js.
pub mod Over
pub mod Applied
pub mod RoundTrip
use nafir.Base.{
  ℕ, Bool, true, false, Option, none, some, List, [], ◌∷◌, if◌then◌else◌, Text, codes, is_empty,
}
use nafir.Value.{Value, null, int, str, arr, obj, Fields, end, field, truthy}
use nafir.Session.Browser.{Platform}
use nafir.Session.{Tab, save_session}
use nafir.Recovery.State.{Choices, Counters, copy_of, is_finite}

-- `location` and `APP_ROOT`, empty if it is not set, and `state`.
pub record Place : Type 0 where
  pub app_root : Text
  pub state : Text
  pub pathname : Text
  pub hash : Text
  pub search : Text

-- An object written with all its keys; a value that is `undefined` is not there.
abbrev pub fields_of : List (Text × Option Value) → Fields
fields_of [] = end
fields_of ((k, none) ∷ es) = fields_of es
fields_of ((k, some v) ∷ es) = field k v (fields_of es)

-- `v || undefined`
abbrev pub present : Option Value → Option Value
present v = if truthy v then v else none

abbrev pub text_value : Option Text → Option Value
text_value none = none
text_value (some t) = some (str t)

-- A number in JSON; NaN becomes null.
abbrev pub number_value : Option ℕ → Option Value
number_value none = some null
number_value (some n) = some (int n)

-- A variable that may be null.
abbrev pub nullable : Option Value → Option Value
nullable none = some null
nullable (some v) = some v

abbrev pub session_entries :
    (ℕ → Text) → Place → Text → Choices → Counters → List (Text × Option Value)
session_entries show page id v c =
    (codes "id", some (str id))
    ∷ (codes "appRoot", present (some (str page.app_root)))
    ∷ (codes "state", some (str page.state))
    ∷ (codes "action", nullable v.action)
    ∷ (codes "count", nullable v.count)
    ∷ (codes "expected", number_value c.expected)
    ∷ (codes "arrived", number_value c.arrived)
    ∷ (codes "visible", some (int c.visible))
    ∷ (codes "sourceFile", present (text_value v.files.source_file))
    ∷ (codes "previewFile", present (text_value v.files.preview_file))
    ∷ (codes "previewMode", present v.files.preview_mode)
    ∷ (codes "pageUrl", some (str page.pathname))
    ∷ (codes "paramValues", some (copy_of show (some v.param_values) v.param_values))
    ∷ (codes "parameterState", nullable v.parameter_state)
    ∷ (codes "origin", if v.by_agent then some (str (codes "agent")) else none)
    ∷ (codes "insertPlaceholder", present v.insert_placeholder)
    ∷ (codes "pickedAnchor", present v.picked_anchor)
    ∷ (codes "pickedAnchorViewportTop", if is_finite v.anchor_top then v.anchor_top else none)
    ∷ (codes "pageHash", present (some (str page.hash)))
    ∷ (codes "pageSearch", present (some (str page.search)))
    ∷ []

abbrev pub session_fields : (ℕ → Text) → Place → Text → Choices → Counters → Fields
session_fields show page id v c = fields_of (session_entries show page id v c)

-- `saveSession`; `id` is `currentSessionId`, empty for null.
unfoldable pub save_own_session :
    (p : Platform) → (ℕ → Text) → Place → Text → Choices → Counters → Tab p → Tab p
save_own_session p show page id v c t =
    if is_empty id then t else save_session p t (some (obj (session_fields show page id v c)))
