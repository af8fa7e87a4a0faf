-- ===== src/Apply/Activity/Progress/Running.antt =====
-- An apply that is under way, over a chunk and at its start.
use nafir.Base.{
  ℕ, ◌+◌, ◌-◌, ◌≤◌, ◌≡◌, ◌⊎◌, inl, inr, Bool, true, false, not, ◌&&◌, ◌||◌, ◌==◌, Option, some,
  List, [], if◌then◌else◌, ltb, min, arith, refl, ap, sym, ◌∙◌, branch, branch_true, branch_false,
  Text,
}
use mathlib.Core.Path.{subst}
use nafir.Apply.{
  Apply, Stored, ApplyPhase, applying, verifying, applying_edits, verifying_edits, live_entry,
  apply_edits, should_resume_manual_apply_loading, read_stored_manual_apply_state, progress_label,
  manual_apply_loading_text, total_of, count_of, completed_of, pill_count, ◌or◌, carried_over,
  write_manual_apply_state, store_manual_apply_state, reset_manual_apply_progress,
  manual_apply_state_ttl_ms,
}
use nafir.Apply.Dock.{
  hide_pending_apply_dock, Effect, set_pending_apply_loading, update_pending_counter,
  update_manual_apply_progress_from_chunk, start_loading,
}
use nafir.Apply.Activity.Progress.Entry.{
  saved_as, entry, live_entry-kept, or-left, store-entry, carried,
}

-- An apply of `total` operations is in flight, `done` of them are done, and the tab saved it at `now`.
pub record IsRunning (total done now : ℕ) (t : Apply) : Type 0 where
  pub docked : t.dock ≡ true
  pub takes : t.refuses ≡ false
  pub busy : t.in_flight ≡ true
  pub start : ℕ
  pub saved : t.stored ≡ some (entry total done start now t.page)
  pub labelled : t.label ≡ progress_label (total - done)

phase_label :
    (more : Bool) (s : Stored) (fallback : ℕ)
    → manual_apply_loading_text fallback
        (some (record s { phase = if more then applying else verifying }))
      ≡ (if more then progress_label s.remaining_count else verifying_edits)
phase_label true s fallback = refl
phase_label false s fallback = refl

asked_twice {ℓ} :
    {A : Type ℓ} (b : Bool) (x y : A)
    → (if b then (if b then x else y) else y) ≡ (if b then x else y)
asked_twice true x y = refl
asked_twice false x y = refl

loading_label :
    (total done start now fallback : ℕ) (page : Text)
    → manual_apply_loading_text fallback (some (entry total done start now page))
      ≡ progress_label (total - done)
loading_label total done start now fallback page =
    phase_label (ltb 0 (total - done)) (entry total done start now page) fallback
    ∙ asked_twice (ltb 0 (total - done)) (applying_edits (total - done)) verifying_edits

loaded : ℕ → ℕ → Apply → Apply
loaded now current t = record t {
  label = manual_apply_loading_text current t.stored;
  deciding = false;
}

loading-IsRunning :
    (now count total done start since : ℕ) (t : Apply)
    → (total == 0) ≡ false
    → t.dock ≡ true
    → t.refuses ≡ false
    → live_entry now t.page t.stored ≡ some (entry total done start since t.page)
    → IsRunning total done now (set_pending_apply_loading now true count t).0
unfolding set_pending_apply_loading start_loading loaded
loading-IsRunning now count total done start since t full docked takes h =
    let current = count or t.count in
    let written =
      saved_as now (carried total done (start or now)) (record t { in_flight = true }) in
    let stored =
      store-entry now current (λ s. s) (record t { in_flight = true }) total done start since full
        takes h in
    branch_false (λ (r : Apply × List Effect). IsRunning total done now r.0) (not t.dock) (t, [])
      (ap not docked)
      (subst (λ u. IsRunning total done now (loaded now current u)) (sym stored)
        (record {
          docked = docked;
          takes = takes;
          busy = refl;
          start = start or now;
          saved = refl;
          labelled = loading_label total done (start or now) now current t.page;
        }))

live_entry-saved :
    (now since total done start : ℕ) (t : Apply)
    → t.stored ≡ some (entry total done start since t.page)
    → now ≤ since + manual_apply_state_ttl_ms
    → live_entry now t.page t.stored ≡ some (entry total done start since t.page)
live_entry-saved now since total done start t saved young =
    ap (live_entry now t.page) saved
    ∙ live_entry-kept now t.page (entry total done start since t.page) refl young

-- The rest of `updateManualApplyProgressFromChunk`, for the total and the entry that was read.
progressed : ℕ → ℕ → ℕ → Option Stored → Apply → Apply × List Effect
progressed now total ops read t =
    let completed = min total (completed_of read + ops) in
    let remaining = total - completed in
    set_pending_apply_loading now true remaining (
      store_manual_apply_state now (count_of read or total)
        (λ s. record s {
          total_ops = total;
          completed_ops = completed;
          remaining_count = remaining;
          phase = if ltb 0 remaining then applying else verifying;
        })
        (record t { stored = read }))

progressed-IsRunning :
    (now since total done ops start : ℕ) (t : Apply)
    → (total == 0) ≡ false
    → t.dock ≡ true
    → t.refuses ≡ false
    → now ≤ since + manual_apply_state_ttl_ms
    → IsRunning total
        (min total (done + ops))
        now
        (progressed now total ops (some (entry total done start since t.page)) t).0
unfolding progressed
progressed-IsRunning now since total done ops start t full docked takes young =
    let e = entry total done start since t.page in
    let completed = min total (done + ops) in
    let t' : Apply = record t { stored = some e } in
    let stored =
      store-entry now (total or total)
        (λ s. record s {
          total_ops = total;
          completed_ops = completed;
          remaining_count = total - completed;
          phase = if ltb 0 (total - completed) then applying else verifying;
        })
        t' total done start since full takes (live_entry-kept now t.page e refl young) in
    subst
      (λ u.
        IsRunning total completed now (set_pending_apply_loading now true (total - completed) u).0)
      (sym stored)
      (loading-IsRunning now (total - completed) total completed (start or now) now
        (record t { stored = some (entry total completed (start or now) now t.page) }) full docked
        takes
        (live_entry-kept now t.page (entry total completed (start or now) now t.page) refl
          (omega arith)))

-- The helper reports the total of the apply with a chunk, or none.
abbrev pub IsTotal : ℕ → ℕ → Type 0
IsTotal total reported = (reported ≡ 0) ⊎ (reported ≡ total)

asked-total :
    (total reported other : ℕ)
    → (total == 0) ≡ false
    → IsTotal total reported
    → (reported or (total or other)) ≡ total
asked-total total reported other full (inl none) =
    ap (λ n. n or (total or other)) none ∙ or-left total other full
asked-total total reported other full (inr same) =
    ap (λ n. n or (total or other)) same ∙ or-left total (total or other) full

pub chunk-IsRunning :
    (now since total done reported ops : ℕ) (t : Apply)
    → (total == 0) ≡ false
    → IsTotal total reported
    → now ≤ since + manual_apply_state_ttl_ms
    → IsRunning total done since t
    → IsRunning total
        (min total (done + ops))
        now
        (update_manual_apply_progress_from_chunk now
          (record { total_op_count = reported; op_count = ops })
          t).0
unfolding update_manual_apply_progress_from_chunk progressed
chunk-IsRunning now since total done reported ops t full known young h =
    let e = entry total done h.start since t.page in
    let Goal : Apply × List Effect → Type 0 =
      λ r. IsRunning total (min total (done + ops)) now r.0 in
    let asked : (reported or (total or (total or pill_count t))) ≡ total =
      asked-total total reported (total or pill_count t) full known in
    branch_false Goal (not t.in_flight) (t, []) (ap not h.busy)
      (subst
        (λ o.
          Goal (progressed now (reported or (total_of o or (count_of o or pill_count t))) ops o t))
        (sym (live_entry-saved now since total done h.start t h.saved young))
        (subst (λ n. Goal (progressed now n ops (some e) t)) (sym asked)
          (progressed-IsRunning now since total done ops h.start t full h.docked h.takes young)))

-- The entry that a fresh apply writes.
abbrev reset_entry : ℕ → ℕ → Text → Stored
reset_entry now total page = record (entry total 0 now now page) {
  remaining_count = total;
  phase = applying;
}

reset_entry-same :
    (now total : ℕ) (page : Text)
    → (total == 0) ≡ false
    → reset_entry now total page ≡ entry total 0 now now page
reset_entry-same now total page full =
    let word : applying ≡ (if ltb 0 (total - 0) then applying else verifying) =
      branch_true (λ (w : ApplyPhase). applying ≡ w) (ltb 0 (total - 0)) verifying
        (ground (arith, full)) refl in
    ap (λ (n : ℕ). record (reset_entry now total page) { remaining_count = n }) (omega arith)
    ∙ ap (λ (w : ApplyPhase). record (entry total 0 now now page) { phase = w }) word

pub started-IsRunning :
    (now total : ℕ) (t : Apply)
    → (total == 0) ≡ false
    → t.dock ≡ true
    → t.refuses ≡ false
    → IsRunning total 0 now
        (set_pending_apply_loading now true total (reset_manual_apply_progress now total t)).0
unfolding reset_manual_apply_progress
started-IsRunning now total t full docked takes =
    let Goal : Apply → Type 0 =
      λ u. IsRunning total 0 now (set_pending_apply_loading now true total u).0 in
    branch_false Goal (total == 0) t full (
      branch_false Goal t.refuses t takes (
        loading-IsRunning now total total 0 now now
          (record t { stored = some (reset_entry now total t.page) }) full docked takes
          (live_entry-kept now t.page (reset_entry now total t.page) refl (omega arith)
            ∙ ap (λ (e : Stored). some e) (reset_entry-same now total t.page full))))

-- The dock and the storage are as they were.
abbrev pub IsSame : Apply → Apply → Type 0
IsSame t u = (u.dock ≡ t.dock) × (u.refuses ≡ t.refuses)

write-IsSame : (now : ℕ) (s : Stored) (t : Apply) → IsSame t (write_manual_apply_state now s t)
write-IsSame now s t = branch (IsSame t) t.refuses (refl, refl) (refl, refl)

store-IsSame :
    (now current : ℕ) (patch : Stored → Stored) (t : Apply)
    → IsSame t (store_manual_apply_state now current patch t)
unfolding store_manual_apply_state
store-IsSame now current patch t =
    let read = live_entry now t.page t.stored in
    let t' : Apply = record t { stored = read } in
    branch (IsSame t) ((total_of read or (count_of read or current)) == 0 && (current == 0))
      {r = t'} (refl, refl) (write-IsSame now (patch (carried_over now current read)) t')

loading-IsSame :
    (now count : ℕ) (t : Apply) → IsSame t (set_pending_apply_loading now true count t).0
unfolding set_pending_apply_loading start_loading
loading-IsSame now count t =
    branch (λ (r : Apply × List Effect). IsSame t r.0) (not t.dock) {r = (t, [])} (refl, refl)
      (store-IsSame now (count or t.count) (λ s. s) (record t { in_flight = true }))

pub counter-IsSame : (now count : ℕ) (t : Apply) → IsSame t (update_pending_counter now count t).0
unfolding update_pending_counter hide_pending_apply_dock
counter-IsSame now count t =
    let t' : Apply = record t { label = apply_edits count; shown = true; count = count } in
    let read : Apply = if t.in_flight then t' else read_stored_manual_apply_state now t' in
    let same : IsSame t read = branch (IsSame t) t.in_flight (refl, refl) (refl, refl) in
    let Same : Apply × List Effect → Type 0 = λ r. IsSame t r.0 in
    let loading = loading-IsSame now count read in
    branch Same (not t.dock) (refl, refl)
      (branch Same (count == 0) (refl, refl)
        (branch Same (t.in_flight || should_resume_manual_apply_loading count read)
          (loading.0 ∙ same.0, loading.1 ∙ same.1) same))
