-- ===== src/Comparison/Messages.antt =====
-- The messages of the helper that concern the comparison (`connectSSE`), the refusals of
-- `sendEvent`, and the loss of the connection.
pub mod Lost
pub mod Stale
use nafir.Base.{
  ℕ, Bool, true, false, not, ◌&&◌, ◌||◌, ◌==◌, Option, none, some, List, [], ◌∷◌, ◌++◌,
  if◌then◌else◌, ltb, leb, Text, codes, is_empty, text_eq, trim,
}
use mathlib.Core.List.{reverse}
use nafir.Value.{Value, property, truthy, str}
use nafir.Target.Tab.{LiveState, idle, picking, generating, cycling, saving}
use nafir.Recovery.Meta.{Meta, remember_session_file_meta, is_framework_component_preview_mode}
use nafir.Phase.{receive}
use nafir.Comparison.{
  Accepted, Live, Effect, toast, save, clear_saved, mark_handled, inject_components, inject_later,
  inject, nudge_later, parameters_ready, unlock_steer, is_current, is_pending, is_awaited,
}
use nafir.Comparison.Cycling.{is_complete}
use nafir.Comparison.Accept.{maybe_complete_accepted_session, end_session}

abbrev pub is_generating : LiveState → Bool
is_generating generating = true
is_generating _ = false

abbrev pub is_cycling : LiveState → Bool
is_cycling cycling = true
is_cycling _ = false

-- `agent_phase`
pub on_agent_phase : Text → Option Text → Live → Live × List Effect
unfolding receive
on_agent_phase id phase t =
    if is_current t id && (is_generating t.state || is_cycling t.state)
    then (record t { phase = receive t.phase phase }, save ∷ [])
    else (t, [])

abbrev pub file_value : Option Text → Option Value
file_value none = none
file_value (some f) = some (str f)

-- The component preview that a message or the tab names, if it is mounted by a framework.
abbrev pub component_file : Option Value → Option Value → Option Value
component_file mode file =
    if is_framework_component_preview_mode mode && truthy file then file else none

abbrev pub injection : Text → Option Value → List Effect
injection id none = []
injection id (some file) = inject_components file id ∷ []

-- `variant_progress`, but for the state of the parameters.
pub on_variant_progress : Text → Value → Live → Live × List Effect
on_variant_progress id msg t =
    if is_current t id
    then (
      record t { files = remember_session_file_meta msg t.files },
      injection id (
          component_file (property (codes "previewMode") msg) (property (codes "previewFile") msg)),
    )
    else (t, [])

-- The variants are in the page, or not: what `done` does if no component preview is mounted.
pub done_in_page : Text → Option Value → Live → Live × List Effect
done_in_page id file t =
    if is_complete t
    then (
      record t { state = if is_generating t.state then cycling else t.state },
      parameters_ready ∷ [],
    )
    else elim file [
      | some path ↦
          if truthy (some path) && not (is_empty id) && is_generating t.state && is_current t id
          then (t, inject_later path id ∷ [])
          else (t, nudge_later ∷ [])
      | none ↦ (t, nudge_later ∷ [])
    ]

done_with : Text → Option Value → Option Value → Live → Live × List Effect
unfolding done_in_page
done_with id (some preview) file t = (t, inject_components preview id ∷ [])
done_with id none file t = done_in_page id file t

-- `done`; `maybeCompleteSteer` answers false to it.
unfoldable pub on_done : Text → Value → Live → Live × List Effect
unfolding done_with
on_done id msg t =
    let t' : Live = record t { files = remember_session_file_meta msg t.files } in
    done_with id
      (if is_current t id
        then component_file t'.files.preview_mode (file_value t'.files.preview_file)
        else none)
      (property (codes "file") msg) t'

-- The timer of `done`, 750 ms later.
pub injection_due : Value → Text → Live → List Effect
injection_due file id t =
    if is_complete t
    then []
    else if not (is_generating t.state) || not (is_current t id)
    then []
    else inject file id ∷ []

abbrev pub after_awaited : Text → Live → Live
after_awaited id t = record t { awaiting = if is_awaited t.awaiting id then none else t.awaiting }

-- `complete` and `accept`
unfoldable pub on_complete : Text → Live → Live × List Effect
on_complete id t = (maybe_complete_accepted_session id (after_awaited id t)).1

-- `agent_done`; only that of a carbonize is about an accept.
pub on_agent_done : Text → Bool → Live → Live × List Effect
unfolding on_complete
on_agent_done id carbonize t = if carbonize then on_complete id t else (t, [])

-- `discarded`
unfoldable pub on_discarded : Text → Live → Live × List Effect
unfolding end_session
on_discarded id t = if is_current t id then end_session t else (t, [])

-- `.trim().replace(/[.!?]?$/, '.')`
sentence_of : Text → Text
sentence_of [] = codes "."
sentence_of (c ∷ s) =
    if (c == b'.') || (c == b'!') || (c == b'?')
    then reverse s ++ codes "."
    else reverse (c ∷ s) ++ codes "."

-- The toasts of `error`, for `msg.message`.
pub accept_failed_toast : Text → Effect
unfolding sentence_of
accept_failed_toast message = toast (
    codes "Accept failed: "
    ++ sentence_of (reverse (trim (if is_empty message then codes "unknown error" else message)))
    ++ codes
        " The variant may not have been saved. If the change is missing, pick the element and generate again.")

abbrev pub error_toast : Text → Effect
error_toast message = toast (codes "Error: " ++ message)

-- The end of `error`, for a message that is about no accept and no steer; `stored` is the id of
-- the session that the browser saved, or empty.
unfoldable pub on_session_error : Text → Text → Text → Live → Live × List Effect
unfolding end_session
on_session_error id stored message t =
    if is_current t id
    then (let (t', sent) = end_session t in (t', error_toast message ∷ sent))
    else (
      record t { state = picking },
      error_toast message
          ∷ (if not (is_empty id) && text_eq stored id then clear_saved ∷ [] else []),
    )

-- `error`
unfoldable pub on_error : Text → Text → Text → Live → Live × List Effect
unfolding on_session_error
on_error id stored message t =
    if not (is_empty id) && is_pending t.pending id
    then (
      record t { pending = none; awaiting = none; state = cycling },
      toast (codes "Could not complete accept cleanup. Try Accept again.") ∷ [],
    )
    else if is_awaited t.awaiting id
    then (record t { awaiting = none }, accept_failed_toast message ∷ [])
    else if not (is_empty t.steer) && text_eq id t.steer
    then (record t { steer = [] }, unlock_steer id ∷ [])
    else on_session_error id stored message t

abbrev pub was_busy : LiveState → Bool
was_busy s = is_generating s || is_cycling s || elim s [ saving ↦ true | _ ↦ false ]

abbrev pub lost_toast : LiveState → List Effect
lost_toast s =
    if was_busy s
    then toast (
        codes
          "Live server connection lost. Your session is saved; reopen this page or restart live-poll.mjs to continue.")
      ∷ []
    else []

-- `handleServerLost`
unfoldable pub handle_server_lost : Live → Live × List Effect
handle_server_lost t = (
  record t { state = if is_empty t.session then idle else t.state },
  lost_toast t.state ++ (if is_empty t.session then [] else save ∷ []),
)

abbrev pub superseded_toast : Effect
superseded_toast = toast (
    codes
      "The helper already answered this request, so this session was cleared. Pick an element to start fresh.")

abbrev pub foreign_toast : Effect
foreign_toast = toast (
    codes
      "A saved live session belonged to a different project, so it was cleared. Pick an element to start fresh.")

-- `abandonSupersededGo`, for a Go that the helper refused because its target was served.
pub abandon_superseded_go : Text → Live → Live × List Effect
unfolding end_session
abandon_superseded_go id t =
    if is_current t id
    then (let (t', sent) = end_session t in (t', sent ++ superseded_toast ∷ []))
    else (t, [])

-- `abandonForeignSession`, with the variable `abandonedForeignSessionId`.
pub abandon_foreign_session : Text → Text → Live → Text × (Live × List Effect)
unfolding end_session
abandon_foreign_session abandoned id t =
    if text_eq abandoned id || not (is_current t id)
    then (abandoned, (t, []))
    else (let (t', sent) = end_session t in (id, (t', sent ++ foreign_toast ∷ [])))
