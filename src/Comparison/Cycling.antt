-- ===== src/Comparison/Cycling.antt =====
-- The variants of the comparison: Go, the observer that counts them (`startVariantObserver`), and
-- `selectVariant` with `cycleVariant`.
pub mod Selection
use nafir.Base.{
  ℕ, ◌+◌, ◌-◌, Bool, true, false, not, ◌&&◌, ◌||◌, ◌==◌, Option, none, some, List, [], ◌∷◌, ◌++◌,
  if◌then◌else◌, ltb, leb, Text, codes, is_empty,
}
use nafir.Target.Tab.{LiveState, configuring, generating, cycling}
use nafir.Recovery.Meta.{reset_session_file_meta}
use nafir.Comparison.{Live, Effect, toast, save, checkpoint, show_variant}

-- `showManualApplyBusyToast`
abbrev pub busy_toast : Effect
busy_toast = toast (codes "Apply is still running. Wait for it to finish.")

abbrev pub is_configuring : LiveState → Bool
is_configuring configuring = true
is_configuring _ = false

-- `handleGo` for an element that is selected or not, with the id that it draws and the selected
-- count: the session variables.
unfoldable pub handle_go : Bool → Text → ℕ → Live → Live × List Effect
handle_go selected id count t =
    if t.pending_apply_in_flight
    then (t, busy_toast ∷ [])
    else if not selected || not (is_configuring t.state)
    then (t, [])
    else (
      record t {
        state = generating;
        session = id;
        expected = count;
        arrived = 0;
        visible = 0;
        phase = some (codes "queued");
        files = reset_session_file_meta;
        pending = none;
        awaiting = none;
      },
      [],
    )

-- The first variant to show: the one that the same saved session showed, if it has arrived.
abbrev pub first_visible : ℕ → ℕ → ℕ → ℕ
first_visible visible saved arrived =
    if visible == 0 && ltb 0 arrived
    then (if ltb 0 saved && leb saved arrived then saved else 1)
    else visible

abbrev pub is_complete : Live → Bool
is_complete t = leb t.expected t.arrived && ltb 0 t.expected

-- The observer's callback for a wrapper of the session with `count` variants, whose attribute says
-- how many are expected; `saved` is the variant of the saved session with this id, or 0.
unfoldable pub observe_variants : ℕ → ℕ → ℕ → Live → Live × List Effect
observe_variants count announced saved t =
    if leb count t.arrived
    then (t, [])
    else let seen : Live = record t {
      arrived = count;
      phase = some (codes (if leb t.expected count then "variants_ready" else "variants_progress"));
      visible = first_visible t.visible saved count;
      expected = if ltb 0 announced then announced else t.expected;
      state = cycling;
    } in
      (
        seen,
        (if t.visible == 0 then show_variant t.session seen.visible ∷ [] else [])
            ++ save
              ∷ checkpoint
                  (codes (if is_complete seen then "variants_ready" else "variants_progress"))
              ∷ [],
      )

abbrev pub is_selecting : Option ℕ → Bool
is_selecting none = false
is_selecting (some previous) = true

-- `selectVariant` up to its first wait: the variant is shown, and its continuation knows the
-- previous one.
unfoldable pub select_variant : ℕ → Live → Live × List Effect
select_variant next t =
    if t.pending_apply_in_flight
    then (t, busy_toast ∷ [])
    else if is_selecting t.selecting
    then (t, [])
    else if ltb next 1 || ltb t.arrived next || (next == t.visible)
    then (t, [])
    else (
      record t { visible = next; selecting = some t.visible },
      save ∷ show_variant t.session next ∷ [],
    )

-- `cycleVariant(1)` and `cycleVariant(-1)`; from 0 the second asks for -1, which is out of range.
pub cycle_variant : Bool → Live → Live × List Effect
unfolding select_variant
cycle_variant forward t = select_variant (if forward then t.visible + 1 else t.visible - 1) t

-- The continuation with the answer of `showVariantInDOM`, of the selection that is in flight: a
-- variant that could not be shown gives way to the previous one, which is shown again first.
answer_for : Bool → Option ℕ → Live → Live × List Effect
answer_for shown none t = (t, [])
answer_for true (some previous) t =
    (record t { selecting = none }, save ∷ checkpoint (codes "variant_changed") ∷ [])
answer_for false (some previous) t =
    (record t { visible = previous }, show_variant t.session previous ∷ [])

pub selection_answer : Bool → Live → Live × List Effect
unfolding answer_for
selection_answer shown t = answer_for shown t.selecting t

-- The end of a selection that failed.
pub selection_restored : Live → Live × List Effect
selection_restored t =
    if is_selecting t.selecting then (record t { selecting = none }, save ∷ []) else (t, [])
