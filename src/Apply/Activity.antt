-- ===== src/Apply/Activity.antt =====
-- The messages about copy edits (`handleManualEditActivity`) and the buttons of the dock, whose
-- requests are answered in operations of their own.
pub mod Progress
pub mod Settled
use nafir.Base.{
  ℕ, zero, Bool, true, false, not, ◌&&◌, ◌||◌, ◌==◌, Option, none, some, List, [], ◌∷◌, ◌++◌,
  if◌then◌else◌, ltb, Text, is_empty, text_eq,
}
use nafir.Apply.{
  Apply, repairing, ◌or◌, or_zero, pill_count, count_of, read_stored_manual_apply_state,
  clear_stored_manual_apply_state, reset_manual_apply_progress,
}
use nafir.Apply.Dock.{
  Effect, fetch_count, post_commit, post_decision, applied_toast, partly_toast, none_applied_toast,
  apply_failed_toast, rolled_back_toast, rollback_failed_toast, repair_failed_toast,
  discarded_toast, discard_failed_toast, Repair, Chunk, hide_pending_apply_dock,
  set_pending_apply_loading, update_pending_counter, show_manual_apply_decision,
  update_manual_apply_progress_from_chunk, update_manual_apply_repair_state,
}

-- The counts of an answer; `none` is what `numberOrNull` turns into null.
pub record Payload : Type 0 where
  pub per_page : Option ℕ
  pub remaining_count : Option ℕ
  pub total_count : Option ℕ

-- `remainingManualEditCount`
abbrev pub remaining_manual_edit_count : Payload → Option ℕ
remaining_manual_edit_count p = elim p.per_page [
  | some n ↦ some n
  | none ↦ elim p.remaining_count [
    | some n ↦ some n
    | none ↦ elim p.total_count [ some zero ↦ some 0 | _ ↦ none ]
  ]
]

-- The message `manual_edit_commit_done`
pub record Done : Type 0 where
  pub needs_decision : Bool
  pub payload : Payload
  pub repair : Option Repair
  pub failed_count : ℕ
  pub applied_count : ℕ
  pub cleared : ℕ

-- The messages of the helper, by their types.
pub data Activity : Type 0 where
  stashed : Option ℕ → Activity
  commit_started : Bool → Option ℕ → Activity
  apply_reply_received : Option Chunk → Option Repair → Activity
  apply_dispatched : Option Repair → Activity
  repair_needs_decision : Option ℕ → Option Repair → Activity
  repair_rollback_done : Activity
  commit_done : Done → Activity
  commit_failed : Activity
  discarded : Activity

-- `manualEditEventForCurrentPage`; an empty text is a page that is missing.
abbrev pub manual_edit_event_for_current_page : Text → Text → Bool
manual_edit_event_for_current_page page_url page = is_empty page_url || text_eq page_url page

-- One operation and then another, with what both send.
abbrev pub and_then : Apply × List Effect → (Apply → Apply × List Effect) → Apply × List Effect
and_then (t, sent) k = let (t', more) = k t in (t', sent ++ more)

abbrev pub first_repair : Repair
first_repair = record { attempt = 1; attempts = 0; max_attempts = 3 }

abbrev pub when_counted : (ℕ → Apply → Apply × List Effect) → Option ℕ → Apply → Apply × List Effect
when_counted act none t = (t, [])
when_counted act (some n) t = act n t

abbrev pub when_given {ℓ} :
    {A : Type ℓ} → (A → Apply → Apply × List Effect) → Option A → Apply → Apply × List Effect
when_given act none t = (t, [])
when_given act (some a) t = act a t

-- `manual_edit_commit_started`
unfoldable pub on_commit_started : ℕ → Bool → Option ℕ → Apply → Apply × List Effect
unfolding update_pending_counter reset_manual_apply_progress update_manual_apply_repair_state
    set_pending_apply_loading
on_commit_started now repair_only pending t =
    let n = or_zero pending in
    let counted = if ltb 0 n then update_pending_counter now n t else (t, []) in
    let reset : Apply × List Effect =
      if not repair_only && ltb 0 n
      then (reset_manual_apply_progress now n counted.0, counted.1)
      else counted in
    let repaired =
      if repair_only
      then and_then reset (update_manual_apply_repair_state now first_repair repairing)
      else reset in
    and_then repaired (set_pending_apply_loading now true n)

-- The toasts of an apply that was in flight.
abbrev pub done_toast : Done → List Effect
done_toast d =
    let applied = d.applied_count or d.cleared in
    if ltb 0 d.failed_count
    then partly_toast applied d.failed_count ∷ []
    else if ltb 0 applied
    then applied_toast applied ∷ []
    else []

-- `manual_edit_commit_done`
unfoldable pub on_commit_done : ℕ → Done → Apply → Apply × List Effect
unfolding show_manual_apply_decision set_pending_apply_loading update_pending_counter
on_commit_done now d t =
    if d.needs_decision
    then (show_manual_apply_decision now d.payload.remaining_count d.repair t, [])
    else let settled =
        and_then (set_pending_apply_loading now false 0 t)
          (update_pending_counter now (or_zero (remaining_manual_edit_count d.payload))) in
      (settled.0, settled.1 ++ (if t.in_flight then done_toast d else []))

-- The branches of `handleManualEditActivity`
unfoldable pub on_activity : ℕ → Activity → Apply → Apply × List Effect
unfolding on_commit_started on_commit_done update_pending_counter
    update_manual_apply_progress_from_chunk update_manual_apply_repair_state
    show_manual_apply_decision set_pending_apply_loading
on_activity now (stashed pending) t = when_counted (update_pending_counter now) pending t
on_activity now (commit_started repair_only pending) t = on_commit_started now repair_only pending t
on_activity now (apply_reply_received chunk repair) t =
    and_then (when_given (update_manual_apply_progress_from_chunk now) chunk t)
      (when_given (λ r. update_manual_apply_repair_state now r repairing) repair)
on_activity now (apply_dispatched repair) t =
    when_given (λ r. update_manual_apply_repair_state now r repairing) repair t
on_activity now (repair_needs_decision remaining repair) t =
    (show_manual_apply_decision now remaining repair t, [])
on_activity now repair_rollback_done t = (clear_stored_manual_apply_state t, fetch_count ∷ [])
on_activity now (commit_done d) t = on_commit_done now d t
on_activity now commit_failed t =
    and_then (set_pending_apply_loading now false 0 t) (λ t'. (t', fetch_count ∷ []))
on_activity now discarded t = (t, fetch_count ∷ [])

-- `handleManualEditActivity`
unfoldable pub handle_manual_edit_activity : ℕ → Text → Activity → Apply → Apply × List Effect
unfolding on_activity
handle_manual_edit_activity now page_url msg t =
    if not (manual_edit_event_for_current_page page_url t.page)
    then (t, [])
    else on_activity now msg t

-- `onPendingPillClick` up to its request, for what the user confirms
pub on_pending_pill_click : ℕ → Bool → Apply → Apply × List Effect
unfolding reset_manual_apply_progress set_pending_apply_loading
on_pending_pill_click now ok t =
    let count = pill_count t in
    if count == 0 || t.in_flight
    then (t, [])
    else if not ok
    then (t, [])
    else and_then
        (set_pending_apply_loading now true count (reset_manual_apply_progress now count t))
        (λ t'. (t', post_commit ∷ []))

-- The answer to that request: the helper has started, it has finished with so many failed and
-- applied edits, or there is no answer that can be read.
pub data CommitAnswer : Type 0 where
  started : CommitAnswer
  finished : Payload → ℕ → ℕ → CommitAnswer
  not_answered : CommitAnswer

abbrev pub answer_toast : ℕ → ℕ → Effect
answer_toast failed applied =
    if ltb 0 failed
    then partly_toast applied failed
    else if ltb 0 applied
    then applied_toast applied
    else none_applied_toast

-- The `finally` of `onPendingPillClick`
unfoldable pub finally_settled : ℕ → Apply → Apply × List Effect
unfolding set_pending_apply_loading hide_pending_apply_dock
finally_settled now t =
    if ltb 0 (pill_count t)
    then set_pending_apply_loading now false 0 t
    else hide_pending_apply_dock t

unfoldable pub commit_answered : ℕ → CommitAnswer → Apply → Apply × List Effect
unfolding finally_settled update_pending_counter
commit_answered now started t = (t, [])
commit_answered now (finished payload failed applied) t =
    and_then (update_pending_counter now (or_zero (remaining_manual_edit_count payload)) t)
      (λ t'. and_then (t', answer_toast failed applied ∷ []) (finally_settled now))
commit_answered now not_answered t = and_then (t, apply_failed_toast ∷ []) (finally_settled now)

-- `onPendingKeepFixingClick` up to its request, and where the request fails with the count from
-- before it; where it is taken, only the buttons change.
pub on_pending_keep_fixing_click : ℕ → Apply → Apply × List Effect
unfolding update_manual_apply_repair_state
on_pending_keep_fixing_click now t =
    let read = if pill_count t == 0 then read_stored_manual_apply_state now t else t in
    if (pill_count t or count_of read.stored) == 0
    then (read, [])
    else and_then (update_manual_apply_repair_state now first_repair repairing read)
        (λ t'. (t', post_commit ∷ []))

pub keep_fixing_answered : ℕ → Bool → ℕ → Apply → Apply × List Effect
unfolding show_manual_apply_decision
keep_fixing_answered now true count t = (record t { deciding = false }, [])
keep_fixing_answered now false count t = (
  show_manual_apply_decision now (some count) none (read_stored_manual_apply_state now t),
  repair_failed_toast ∷ [],
)

-- `onPendingRollbackClick`
pub on_pending_rollback_click : Bool → Apply → Apply × List Effect
on_pending_rollback_click ok t = if ok then (t, post_decision ∷ []) else (t, [])

-- Its answer; `none` is a request that failed, and a count of 0 one that is missing.
pub rollback_answered : ℕ → Option ℕ → Apply → Apply × List Effect
unfolding update_pending_counter
rollback_answered now none t = (t, rollback_failed_toast ∷ [])
rollback_answered now (some remaining) t =
    and_then (update_pending_counter now remaining (clear_stored_manual_apply_state t))
      (λ t'. (t', rolled_back_toast ∷ []))

-- The answer to the discard of `count` edits by `onPendingTrashClick`
pub trash_answered : ℕ → Bool → ℕ → Apply → Apply × List Effect
unfolding update_pending_counter
trash_answered now true count t =
    and_then (update_pending_counter now 0 t) (λ t'. (t', discarded_toast count ∷ []))
trash_answered now false count t = (t, discard_failed_toast ∷ [])
