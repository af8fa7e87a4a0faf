-- ===== src/Apply/Activity/Progress.antt =====
-- The progress of an apply over its chunks.
pub mod Entry
pub mod Running
use nafir.Base.{
  ℕ, zero, suc, ◌+◌, ◌-◌, ◌≤◌, ◌<◌, ◌≡◌, Bool, true, false, not, ◌&&◌, ◌||◌, ◌==◌, Option, none,
  some, List, [], ◌∷◌, ◌++◌, if◌then◌else◌, ltb, min, arith, refl, ap, sym, ◌∙◌, branch,
  branch_true, branch_false, Bool-cases, inl, inr, text_eq, text_eq_refl, Text,
}
use mathlib.Core.Path.{subst}
use nafir.Apply.{
  Apply, Stored, ApplyPhase, applying, verifying, applying_edits, verifying_edits, live_entry,
  is_stored, is_stale, apply_edits, should_resume_manual_apply_loading,
  read_stored_manual_apply_state, progress_label, manual_apply_loading_text, carried_over, total_of,
  count_of, completed_of, pill_count, ◌or◌, write_manual_apply_state, store_manual_apply_state,
  reset_manual_apply_progress, manual_apply_state_ttl_ms,
}
use nafir.Apply.Activity.{
  and_then, Activity, apply_reply_received, commit_started, on_activity, on_commit_started,
  handle_manual_edit_activity,
}
use nafir.Apply.Dock.{
  hide_pending_apply_dock, Effect, Chunk, set_pending_apply_loading, update_pending_counter,
  update_manual_apply_progress_from_chunk, start_loading,
}
use nafir.Apply.Activity.Progress.Entry.{entry, live_entry-kept, or-left, store-entry, carried}
use nafir.Apply.Activity.Progress.Running.{
  IsRunning, chunk-IsRunning, started-IsRunning, counter-IsSame, IsTotal,
}

-- The chunks of an apply, each with the time since the last one, the total that the helper reports
-- with it, 0 for none, and the number of its operations.
abbrev pub Chunks : Type 0
Chunks = List (ℕ × ℕ × ℕ)

abbrev pub operations : Chunks → ℕ
operations [] = 0
operations ((pause, reported, ops) ∷ cs) = ops + operations cs

abbrev pub elapsed : Chunks → ℕ
elapsed [] = 0
elapsed ((pause, reported, ops) ∷ cs) = pause + elapsed cs

-- Each chunk comes before the entry expires, and reports the total of the apply, or none.
abbrev pub IsTimely : ℕ → Chunks → Type 0
IsTimely total [] = Unit {0}
IsTimely total ((pause, reported, ops) ∷ cs) =
    (pause ≤ manual_apply_state_ttl_ms) × IsTotal total reported × IsTimely total cs

abbrev pub chunk_reply : ℕ → ℕ → Activity
chunk_reply reported ops =
    apply_reply_received (some (record { total_op_count = reported; op_count = ops })) none

unfoldable pub replies : ℕ → Chunks → Apply → Apply
unfolding handle_manual_edit_activity
replies now [] t = t
replies now ((pause, reported, ops) ∷ cs) t =
    replies (now + pause) cs
      (handle_manual_edit_activity (now + pause) [] (chunk_reply reported ops) t).0

done-all : (done total : ℕ) → done ≤ total → done ≡ min total (done + 0)
done-all done total le = omega arith

at_once : (now : ℕ) → now ≡ now + 0
at_once now = omega arith

from_none : (total rest : ℕ) → min total (0 + rest) ≡ min total rest
from_none total rest = omega arith

later_on : (now pause rest : ℕ) → now + pause + rest ≡ now + (pause + rest)
later_on now pause rest = omega arith

min-again :
    (total done ops rest : ℕ)
    → min total (min total (done + ops) + rest) ≡ min total (done + (ops + rest))
min-again total done ops rest = omega arith

replies-IsRunning :
    (now total done : ℕ) (cs : Chunks) (t : Apply)
    → (total == 0) ≡ false
    → IsTimely total cs
    → done ≤ total
    → IsRunning total done now t
    → IsRunning total (min total (done + operations cs)) (now + elapsed cs) (replies now cs t)
unfolding replies handle_manual_edit_activity on_activity
replies-IsRunning now total done [] t full timely le h =
    subst (λ n. IsRunning total n (now + 0) t) (done-all done total le)
      (subst (λ n. IsRunning total done n t) (at_once now) h)
replies-IsRunning now total done ((pause, reported, ops) ∷ cs) t full (soon, known, later) le h =
    let chunk : Chunk = record { total_op_count = reported; op_count = ops } in
    let t' = (update_manual_apply_progress_from_chunk (now + pause) chunk t).0 in
    let next =
      chunk-IsRunning (now + pause) now total done reported ops t full known (omega arith) h in
    let all =
      replies-IsRunning (now + pause) total (min total (done + ops)) cs t' full later (omega arith)
        next in
    subst (λ n. IsRunning total n (now + (pause + elapsed cs)) (replies (now + pause) cs t'))
      (min-again total done ops (operations cs))
      (subst
        (λ n.
          IsRunning total (min total (min total (done + ops) + operations cs)) n
            (replies (now + pause) cs t'))
        (later_on now pause (elapsed cs)) all)

commit_started-IsRunning :
    (now total : ℕ) (t : Apply)
    → t.dock ≡ true
    → t.refuses ≡ false
    → (total == 0) ≡ false
    → IsRunning total 0 now (on_commit_started now false (some total) t).0
unfolding on_commit_started
commit_started-IsRunning now total t docked takes full =
    let more : ltb 0 total ≡ true = ground (arith, full) in
    let counted = update_pending_counter now total t in
    let same = counter-IsSame now total t in
    let Goal : Apply × List Effect → Type 0 =
      λ r. IsRunning total 0 now (and_then r (set_pending_apply_loading now true total)).0 in
    branch_true
      (λ (c : Apply × List Effect).
        Goal (if ltb 0 total then (reset_manual_apply_progress now total c.0, c.1) else c))
      (ltb 0 total) (t, []) more
      (branch_true Goal (ltb 0 total) counted more
        (started-IsRunning now total counted.0 full (same.0 ∙ docked) (same.1 ∙ takes)))

-- An apply of one operation at least, with the dock built and a storage that takes what is written:
-- however many chunks the helper reports, each before the saved entry expires and with the total of
-- the apply or none, the apply stays in flight, the pill tells what is left, and the saved entry,
-- which a reload resumes, counts each operation as done until none is left.
pub replies-commit_started-IsRunning :
    (now total : ℕ) (cs : Chunks) (t : Apply)
    → t.dock ≡ true
    → t.refuses ≡ false
    → (total == 0) ≡ false
    → IsTimely total cs
    → IsRunning total (min total (operations cs)) (now + elapsed cs) (
        replies now cs (handle_manual_edit_activity now [] (commit_started false (some total)) t).0)
unfolding handle_manual_edit_activity on_activity
replies-commit_started-IsRunning now total cs t docked takes full timely =
    let t' = (on_commit_started now false (some total) t).0 in
    subst (λ n. IsRunning total n (now + elapsed cs) (replies now cs t'))
      (from_none total (operations cs))
      (replies-IsRunning now total 0 cs t' full timely (omega arith)
        (commit_started-IsRunning now total t docked takes full))
