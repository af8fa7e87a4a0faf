-- ===== src/Recovery/State.antt =====
-- `applySavedSessionMeta`, `clampVariantIndex` and the rest of `restoreSessionWithoutWrapper`: the
-- state of a tab that resumes a session.
pub mod Save
pub mod Bounds
pub mod Tests
use nafir.Base.{
  ℕ, zero, suc, ◌+◌, Bool, true, false, not, ◌&&◌, ◌||◌, Option, none, some, List, [], ◌∷◌, map,
  if◌then◌else◌, ltb, Text, codes, text_eq, contains,
}
use nafir.Value.{
  Value, null, bool, int, neg, other, str, arr, obj, Items, nil, cons, Fields, end, field, property,
  truthy, text_or_empty,
}
use nafir.Recovery.Summary.{property?, or_else}
use nafir.Recovery.Meta.{
  Meta, or_file, remember_session_file_meta, is_framework_component_preview_mode,
}

-- `Number(v)` of a value that is no natural number itself, `none` for NaN (the counts of sessions
-- are natural numbers or texts of such); the digits of an index; and whether
-- `findLiveElementFromAnchorSnapshot` finds the picked anchor.
pub record Outside : Type 0 where
  pub number : Value → Option ℕ
  pub show : ℕ → Text
  pub finds : Option Value → Bool

-- The variables that a saved session sets, `none` for null: the files,
-- `insertPlaceholderSnapshot`, `pickedAnchorSnapshot`, `pickedAnchorViewportTop`, `selectedAction`,
-- `selectedCount`, `paramsCurrentValues`, `parameterGenerationState`, whether `sessionOrigin` is
-- `agent`, and `generationPhase`.
pub record Choices : Type 0 where
  pub files : Meta
  pub insert_placeholder : Option Value
  pub picked_anchor : Option Value
  pub anchor_top : Option Value
  pub action : Option Value
  pub count : Option Value
  pub param_values : Value
  pub parameter_state : Option Value
  pub by_agent : Bool
  pub phase : Option Value

-- `{ ...v }` of an object or an array
abbrev pub indexed : (ℕ → Text) → ℕ → Items → Fields
indexed show i nil = end
indexed show i (cons v vs) = field (show i) v (indexed show (suc i) vs)

abbrev pub copy_of : (ℕ → Text) → Option Value → Value → Value
copy_of show (some (obj fs)) current = obj fs
copy_of show (some (arr vs)) current = obj (indexed show 0 vs)
copy_of show _ current = current

-- `Number.isFinite`
abbrev pub is_finite : Option Value → Bool
is_finite (some (int n)) = true
is_finite (some (neg n)) = true
is_finite (some (other t)) =
    not (contains (codes "Infinity" ∷ codes "-Infinity" ∷ codes "NaN" ∷ []) t)
is_finite _ = false

abbrev pub is_agent : Option Value → Bool
is_agent (some (str t)) = text_eq t (codes "agent")
is_agent _ = false

abbrev pub with_mode : Option Value → Meta → Meta
with_mode mode m = record m { preview_mode = or_else mode m.preview_mode }

-- The body for a session that is there.
unfoldable pub apply_meta : Outside → Value → Choices → Choices
apply_meta o saved w =
    let own : Text → Option Value = λ k. property k saved in
    record {
      files = with_mode (own (codes "previewMode")) (remember_session_file_meta saved w.files);
      insert_placeholder = or_else (own (codes "insertPlaceholder")) w.insert_placeholder;
      picked_anchor = or_else (own (codes "pickedAnchor")) w.picked_anchor;
      anchor_top =
          if is_finite (own (codes "pickedAnchorViewportTop"))
          then own (codes "pickedAnchorViewportTop")
          else w.anchor_top;
      action = or_else (own (codes "action")) w.action;
      count = or_else (own (codes "count")) w.count;
      param_values = copy_of o.show (own (codes "paramValues")) w.param_values;
      parameter_state = or_else (own (codes "parameterState")) w.parameter_state;
      by_agent = is_agent (own (codes "origin"));
      phase = or_else (own (codes "generationPhase")) w.phase;
    }

abbrev pub apply_saved_session_meta : Outside → Option Value → Choices → Choices
apply_saved_session_meta o none w = w
apply_saved_session_meta o (some saved) w = apply_meta o saved w

-- `Number(v)`; `undefined` is not a number.
abbrev pub number_of : Outside → Option Value → Option ℕ
number_of o none = none
number_of o (some (int n)) = some n
number_of o (some v) = o.number v

-- `Number.isFinite(max) && max > 0 && n > max`
abbrev pub is_beyond : ℕ → Option ℕ → Bool
is_beyond n none = false
is_beyond n (some max) = ltb 0 max && ltb max n

-- `clampVariantIndex`, behind `Number(value)` and `Number(count)`
abbrev pub clamp_variant_index : Option ℕ → Option ℕ → ℕ
clamp_variant_index none count = 0
clamp_variant_index (some n) count = if ltb n 1 || is_beyond n count then 0 else n

-- `a || b` of numbers
abbrev pub or_number : Option ℕ → Option ℕ → Option ℕ
or_number (some (suc n)) m = some (suc n)
or_number _ m = m

-- `n <= 0`, which NaN is not, and `n > 0`
abbrev pub is_zero : Option ℕ → Bool
is_zero (some zero) = true
is_zero _ = false

abbrev pub is_positive : Option ℕ → Bool
is_positive (some (suc n)) = true
is_positive _ = false

abbrev pub as_value : Option ℕ → Option Value
as_value none = none
as_value (some n) = some (int n)

abbrev pub first_index : ℕ → ℕ → ℕ
first_index zero m = m
first_index (suc n) m = suc n

-- The variables `expectedVariants`, `arrivedVariants` and `visibleVariant`.
pub record Counters : Type 0 where
  pub expected : Option ℕ
  pub arrived : Option ℕ
  pub visible : ℕ

abbrev pub arrived_count : Outside → Bool → Option Value → Value → Option Value → Option ℕ
arrived_count o has_preview count saved server =
    let said = number_of o (
      or_else (property (codes "arrived") saved)
        (or_else (property? (codes "arrivedVariants") server) (some (int 0)))) in
    if is_zero said && has_preview
    then number_of o (
        or_else (property? (codes "expectedVariants") server)
          (or_else (property (codes "expected") saved) (or_else count (some (int 0)))))
    else said

abbrev pub expected_count : Outside → Option Value → Value → Option Value → Option ℕ → Option ℕ
expected_count o count saved server arrived =
    let said = number_of o (
      or_else (property (codes "expected") saved)
        (or_else (property? (codes "expectedVariants") server) (or_else count (some (int 0))))) in
    if is_zero said
    then number_of o (
        or_else (property? (codes "expectedVariants") server)
          (or_else (as_value arrived) (or_else count (some (int 0)))))
    else said

abbrev pub visible_index : Outside → Value → Option Value → Option ℕ → Option ℕ → ℕ
visible_index o saved server arrived expected =
    let of : Option Value → ℕ =
      λ v. clamp_variant_index (number_of o v) (or_number arrived expected) in
    first_index (of (property (codes "visible") saved)) (
      first_index (of (property? (codes "visibleVariant") server))
        (if is_positive arrived then 1 else 0))

-- The three counters, for `selectedCount` and whether there is a `currentPreviewFile`.
unfoldable pub restored_counters : Outside → Bool → Option Value → Value → Option Value → Counters
restored_counters o has_preview count saved server =
    let arrived = arrived_count o has_preview count saved server in
    let expected = expected_count o count saved server arrived in
    record {
      expected = expected;
      arrived = arrived;
      visible = visible_index o saved server arrived expected;
    }

abbrev pub is_file : Option Text → Bool
is_file none = false
is_file (some t) = true

-- The file that variants are injected from, and whether a session without variants there is
-- discarded as an orphan.
abbrev pub restore_file : Meta → Option Text
restore_file m =
    if is_framework_component_preview_mode m.preview_mode
    then m.preview_file
    else or_file m.source_file m.preview_file

abbrev pub injection : Text → Meta → Option Text → Option (Text × Bool)
injection saved_state m none = none
injection saved_state m (some file) = some (
  file,
  text_eq saved_state (codes "CYCLING") && not (is_framework_component_preview_mode m.preview_mode),
)

-- What a resumed session leaves in the tab, beside the state GENERATING: its id, the variables
-- above, `recoveryWaitingForAnchor`, and the injection that is started.
pub record Resumed : Type 0 where
  pub id : Option Value
  pub choices : Choices
  pub counters : Counters
  pub waits_for_anchor : Bool
  pub injects : Option (Text × Bool)

-- `upper` is `toUpperCase`.
unfoldable pub resume : Outside → (Text → Text) → Value × Option Value → Choices → Resumed
unfolding restored_counters
resume o upper (saved, server) w =
    let choices = apply_saved_session_meta o (some saved) (apply_saved_session_meta o server w) in
    let files = choices.files in
    let saved_state = upper (text_or_empty (property (codes "state") saved)) in
    record {
      id = property (codes "id") saved;
      choices = choices;
      counters = restored_counters o (is_file files.preview_file) choices.count saved server;
      waits_for_anchor = not (o.finds choices.picked_anchor);
      injects = injection saved_state files (restore_file files);
    }
