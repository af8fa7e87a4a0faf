-- ===== src/Apply/Dock.antt =====
-- The dock of the pending copy edits, live-browser.js: `hidePendingApplyDock` to
-- `updatePendingCounter`, `showManualApplyDecision` and the two updates of the progress.
use nafir.Base.{
  ℕ, ◌+◌, ◌-◌, Bool, true, false, not, ◌||◌, ◌==◌, Option, none, some, List, [], ◌∷◌, if◌then◌else◌,
  ltb, min,
}
use nafir.Apply.{
  Apply, Stored, ApplyPhase, applying, verifying, repair_decision, apply_edits, needs_attention,
  ◌or◌, pill_count, or_zero, count_of, total_of, completed_of, read_stored_manual_apply_state,
  store_manual_apply_state, clear_stored_manual_apply_state, should_resume_manual_apply_loading,
  manual_apply_loading_text,
}

-- What a handler calls or sends besides; the toasts carry their numbers.
pub data Effect : Type 0 where
  retry_declined : Effect
  fetch_count : Effect
  post_commit post_decision : Effect
  applied_toast : ℕ → Effect
  partly_toast : ℕ → ℕ → Effect
  none_applied_toast apply_failed_toast rolled_back_toast rollback_failed_toast : Effect
  repair_failed_toast : Effect
  discarded_toast : ℕ → Effect
  discard_failed_toast : Effect

-- `hidePendingApplyDock`
unfoldable pub hide_pending_apply_dock : Apply → Apply × List Effect
hide_pending_apply_dock t = (
  clear_stored_manual_apply_state (record t {
    in_flight = false;
    count = 0;
    shown = false;
    deciding = false;
    label = apply_edits 0;
  }),
  retry_declined ∷ [],
)

-- `setPendingApplyLoading(true, count)`, where the dock was built; 0 is a count that is not given.
unfoldable pub start_loading : ℕ → ℕ → Apply → Apply
unfolding store_manual_apply_state
start_loading now count t =
    let current = count or t.count in
    let t' = store_manual_apply_state now current (λ s. s) (record t { in_flight = true }) in
    record t' { label = manual_apply_loading_text current t'.stored; deciding = false }

-- `setPendingApplyLoading(false)`, where the dock was built
unfoldable pub stop_loading : Apply → Apply × List Effect
stop_loading t = (
  clear_stored_manual_apply_state (record t { in_flight = false; label = apply_edits t.count }),
  retry_declined ∷ [],
)

-- `setPendingApplyLoading`
unfoldable pub set_pending_apply_loading : ℕ → Bool → ℕ → Apply → Apply × List Effect
unfolding start_loading stop_loading
set_pending_apply_loading now loading count t =
    if not t.dock
    then (t, [])
    else if loading
    then (start_loading now count t, [])
    else stop_loading t

-- `updatePendingCounter`; a count that is missing is 0.
unfoldable pub update_pending_counter : ℕ → ℕ → Apply → Apply × List Effect
unfolding hide_pending_apply_dock set_pending_apply_loading
update_pending_counter now count t =
    if not t.dock
    then (t, [])
    else if count == 0
    then hide_pending_apply_dock t
    else let t' : Apply = record t { label = apply_edits count; shown = true; count = count } in
      let read = if t'.in_flight then t' else read_stored_manual_apply_state now t' in
      if t'.in_flight || should_resume_manual_apply_loading count read
      then set_pending_apply_loading now true count read
      else (read, [])

-- `repair` of a message; 0 is a number that is missing.
pub record Repair : Type 0 where
  pub attempt : ℕ
  pub attempts : ℕ
  pub max_attempts : ℕ

-- `chunk` of a message; 0 is a number that is missing.
pub record Chunk : Type 0 where
  pub total_op_count : ℕ
  pub op_count : ℕ

abbrev pub attempts_of : Option Repair → ℕ
attempts_of none = 3
attempts_of (some r) = r.attempts or (r.attempt or 3)

abbrev pub most_of : Option Repair → ℕ
most_of none = 3
most_of (some r) = r.max_attempts or 3

-- `showManualApplyDecision`, for the remaining count and the repair of its argument
unfoldable pub show_manual_apply_decision : ℕ → Option ℕ → Option Repair → Apply → Apply
unfolding store_manual_apply_state
show_manual_apply_decision now remaining repair t =
    let t' =
      store_manual_apply_state now (pill_count t or or_zero remaining)
        (λ s. record s {
          phase = repair_decision;
          repair_attempt = some (attempts_of repair);
          repair_max_attempts = some (most_of repair);
        })
        (record t { in_flight = false }) in
    record t' { label = needs_attention; deciding = true; shown = true }

-- The total of `updateManualApplyProgressFromChunk`.
abbrev pub chunk_total : Chunk → Option Stored → ℕ → ℕ
chunk_total chunk stored count =
    chunk.total_op_count or (total_of stored or (count_of stored or count))

-- `updateManualApplyProgressFromChunk`
unfoldable pub update_manual_apply_progress_from_chunk : ℕ → Chunk → Apply → Apply × List Effect
unfolding set_pending_apply_loading store_manual_apply_state
update_manual_apply_progress_from_chunk now chunk t =
    if not t.in_flight
    then (t, [])
    else let read = read_stored_manual_apply_state now t in
      let total = chunk_total chunk read.stored (pill_count t) in
      let completed = min total (completed_of read.stored + chunk.op_count) in
      let remaining = total - completed in
      set_pending_apply_loading now true remaining (
        store_manual_apply_state now (count_of read.stored or total)
          (λ s. record s {
            total_ops = total;
            completed_ops = completed;
            remaining_count = remaining;
            phase = if ltb 0 remaining then applying else verifying;
          })
          read)

-- `updateManualApplyRepairState`
unfoldable pub update_manual_apply_repair_state :
    ℕ → Repair → ApplyPhase → Apply → Apply × List Effect
unfolding set_pending_apply_loading store_manual_apply_state
update_manual_apply_repair_state now repair phase t =
    let read = if pill_count t == 0 then read_stored_manual_apply_state now t else t in
    let count = pill_count t or count_of read.stored in
    if count == 0
    then (read, [])
    else set_pending_apply_loading now true count (
        store_manual_apply_state now count
          (λ s. record s {
            phase = phase;
            repair_attempt = some ((repair.attempt or repair.attempts) or 1);
            repair_max_attempts = some (repair.max_attempts or 3);
          })
          read)
