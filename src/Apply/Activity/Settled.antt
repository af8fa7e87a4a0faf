-- ===== src/Apply/Activity/Settled.antt =====
-- The end of an apply.
use nafir.Base.{
  ℕ, ◌≡◌, Bool, true, false, not, ◌&&◌, ◌==◌, Option, none, List, [], ◌++◌, if◌then◌else◌, ltb,
  arith, refl, ap, sym, ◌∙◌, branch, branch_false, Bool-cases, inl, inr,
}
use mathlib.Core.Path.{subst}
use nafir.Apply.{Apply, Stored, pill_count, or_zero}
use nafir.Apply.Dock.{
  Effect, hide_pending_apply_dock, set_pending_apply_loading, update_pending_counter, stop_loading,
  show_manual_apply_decision,
}
use nafir.Apply.Activity.{
  Done, CommitAnswer, started, finished, not_answered, commit_done, commit_failed, on_commit_done,
  on_activity, commit_answered, finally_settled, remaining_manual_edit_count, and_then, done_toast,
}

-- What ends an apply: the helper says so, or it answers the request at once, or not at all.
pub data End : Type 0 where
  done : Done → End
  failed : End
  answered : CommitAnswer → End

unfoldable pub end_apply : ℕ → End → Apply → Apply × List Effect
unfolding on_activity commit_answered
end_apply now (done d) t = on_activity now (commit_done d) t
end_apply now failed t = on_activity now commit_failed t
end_apply now (answered a) t = commit_answered now a t

-- The end is final: no decision is asked for, and the helper has not just started.
abbrev pub is_final : End → Bool
is_final (done d) = not d.needs_decision
is_final failed = true
is_final (answered started) = false
is_final (answered a) = true

-- No apply is in flight, and no reload will resume one.
abbrev pub IsSettled : Apply → Type 0
IsSettled t = (t.in_flight ≡ false) × (t.stored ≡ none)

abbrev Settles : Apply × List Effect → Type 0
Settles r = IsSettled r.0

stop-Settles :
    (now count : ℕ) (t : Apply)
    → t.dock ≡ true
    → Settles (set_pending_apply_loading now false count t)
unfolding set_pending_apply_loading stop_loading
stop-Settles now count t h = branch_false Settles (not t.dock) (t, []) (ap not h) (refl, refl)

abbrev settled : Apply → Apply
settled t = record t { in_flight = false; stored = none }

settled-same : (t : Apply) → IsSettled t → settled t ≡ t
settled-same t (idle, clear) =
    ap (λ (f : Bool). record t { in_flight = f; stored = none }) (sym idle)
    ∙ ap (λ (s : Option Stored). record t { stored = s }) (sym clear)

counter-settled :
    (now count : ℕ) (t : Apply) → Settles (update_pending_counter now count (settled t))
unfolding update_pending_counter hide_pending_apply_dock
counter-settled now count t =
    branch Settles (not t.dock) (refl, refl)
      (branch Settles (count == 0) (refl, refl)
        (branch_false Settles (ltb 0 count && false) _ (ground arith) (refl, refl)))

-- A counter that comes after the end begins no apply.
counter-Settles :
    (now count : ℕ) (t : Apply) → IsSettled t → Settles (update_pending_counter now count t)
counter-Settles now count t h =
    subst (λ u. Settles (update_pending_counter now count u)) (settled-same t h)
      (counter-settled now count t)

finally-Settles : (now : ℕ) (t : Apply) → Settles (finally_settled now t)
unfolding finally_settled hide_pending_apply_dock
finally-Settles now t = elim (Bool-cases t.dock) [
  | inl docked ↦ branch Settles (ltb 0 (pill_count t)) (stop-Settles now 0 t docked) (refl, refl)
  | inr bare ↦
      let unseen : pill_count t ≡ 0 = branch_false (λ (n : ℕ). n ≡ 0) t.dock t.count bare refl in
      branch_false Settles (ltb 0 (pill_count t)) _ (ap (ltb 0) unseen) (refl, refl)
]

commit_done-Settles :
    (now : ℕ) (d : Done) (t : Apply)
    → t.dock ≡ true
    → d.needs_decision ≡ false
    → Settles (on_commit_done now d t)
unfolding on_commit_done
commit_done-Settles now d t docked final =
    let left = or_zero (remaining_manual_edit_count d.payload) in
    let stopped = set_pending_apply_loading now false 0 t in
    let shut : Settles stopped = stop-Settles now 0 t docked in
    let counted : Settles (update_pending_counter now left stopped.0) =
      counter-Settles now left stopped.0 shut in
    branch_false Settles d.needs_decision
      (show_manual_apply_decision now d.payload.remaining_count d.repair t, [])
      {s = (
        (update_pending_counter now left stopped.0).0,
        (and_then stopped (update_pending_counter now left)).1
            ++ (if t.in_flight then done_toast d else []),
      )}
      final counted

-- However an apply ends, done, failed, answered at once or not answered, with a decision to ask for
-- excepted: no apply is in flight, whatever counts are left, and no reload will resume one.
pub end_apply-IsSettled :
    (now : ℕ) (e : End) (t : Apply)
    → t.dock ≡ true
    → is_final e ≡ true
    → IsSettled (end_apply now e t).0
unfolding end_apply on_activity on_commit_done commit_answered
end_apply-IsSettled now (done d) t docked final =
    commit_done-Settles now d t docked (ground (arith, final))
end_apply-IsSettled now failed t docked final = stop-Settles now 0 t docked
end_apply-IsSettled now (answered started) t docked final = cc
end_apply-IsSettled now (answered (finished payload n k)) t docked final =
    finally-Settles now
      (update_pending_counter now (or_zero (remaining_manual_edit_count payload)) t).0
end_apply-IsSettled now (answered not_answered) t docked final = finally-Settles now t
