-- ===== src/Apply/Tests.antt =====
-- The laws of an apply at inputs, and tests of the decision that is asked for.
use nafir.Base.{◌+◌, ◌≡◌, arith, true, false, none, some, [], ◌∷◌, refl, codes, min, inl, inr}
use nafir.Apply.{
  store_manual_apply_state, reset_manual_apply_progress, Apply, apply_edits, repairing, fixing,
  applying_edits,
}
use nafir.Apply.Dock.{
  update_manual_apply_repair_state, set_pending_apply_loading, start_loading,
  update_manual_apply_progress_from_chunk, update_pending_counter,
}
use nafir.Apply.Activity.{
  on_commit_started, on_activity, handle_manual_edit_activity, commit_started,
  repair_needs_decision, stashed,
}
use nafir.Apply.Activity.Progress.{operations, elapsed, replies, replies-commit_started-IsRunning}
use nafir.Apply.Activity.Progress.Running.{IsRunning}
use nafir.Apply.Activity.Settled.{done, end_apply, IsSettled, end_apply-IsSettled}

-- A page with three copy edits.
abbrev edited : Apply
edited = record {
  page = codes "/";
  dock = true;
  in_flight = false;
  count = 3;
  shown = true;
  deciding = false;
  label = apply_edits 3;
  stored = none;
  refuses = false;
}

abbrev in_flight : Apply
in_flight = record edited { in_flight = true; label = applying_edits 3 }

-- Three edits, in chunks of two and of two, a second apart.
replies-commit_started-IsRunning_example :
    IsRunning 3
      (min 3 (operations ((1000, 3, 2) ∷ (1000, 0, 2) ∷ [])))
      (0 + elapsed ((1000, 3, 2) ∷ (1000, 0, 2) ∷ []))
      (replies 0
        ((1000, 3, 2) ∷ (1000, 0, 2) ∷ [])
        (handle_manual_edit_activity 0 [] (commit_started false (some 3)) edited).0)
replies-commit_started-IsRunning_example =
    replies-commit_started-IsRunning 0 3 ((1000, 3, 2) ∷ (1000, 0, 2) ∷ []) edited refl refl refl
      (omega arith, inr refl, (omega arith, inl refl, tt))

-- The storage refuses the entry: after two chunks of one operation, of three, the pill tells that
-- two are left.
forgets_chunks :
    (replies 0
      ((1000, 3, 1) ∷ (1000, 3, 1) ∷ [])
      (handle_manual_edit_activity 0 []
        (commit_started false (some 3))
        (record edited { refuses = true })).0).label
    ≡ applying_edits 2
unfolding replies handle_manual_edit_activity set_pending_apply_loading start_loading
    update_manual_apply_progress_from_chunk store_manual_apply_state on_commit_started
    update_pending_counter reset_manual_apply_progress on_activity
forgets_chunks = refl

-- One of three edits has failed and is left.
end_apply-IsSettled_example :
    IsSettled
      (end_apply 0
        (done (record {
          needs_decision = false;
          payload = record { per_page = some 1; remaining_count = none; total_count = none };
          repair = none;
          failed_count = 1;
          applied_count = 2;
          cleared = 0;
        }))
        in_flight).0
end_apply-IsSettled_example =
    end_apply-IsSettled 0
      (done (record {
        needs_decision = false;
        payload = record { per_page = some 1; remaining_count = none; total_count = none };
        repair = none;
        failed_count = 1;
        applied_count = 2;
        cleared = 0;
      }))
      in_flight refl refl

-- The helper reports the second attempt of five.
shows_first_attempt :
    (update_manual_apply_repair_state 0
      (record { attempt = 2; attempts = 0; max_attempts = 5 })
      repairing
      in_flight).0.label
    ≡ fixing 1 3
unfolding update_manual_apply_repair_state
shows_first_attempt = refl

-- The helper asks for a decision, and the page offers it.
asked : Apply
unfolding handle_manual_edit_activity
asked = (handle_manual_edit_activity 0 [] (repair_needs_decision none none) in_flight).0

decision_offered : asked.deciding ≡ true
unfolding asked
decision_offered = refl

-- Another edit is saved: the apply is in flight again, and the decision is offered no more.
decision_lost :
    ((handle_manual_edit_activity 1 [] (stashed (some 4)) asked).0.deciding ≡ false)
    × ((handle_manual_edit_activity 1 [] (stashed (some 4)) asked).0.in_flight ≡ true)
unfolding asked handle_manual_edit_activity
decision_lost = (refl, refl)
