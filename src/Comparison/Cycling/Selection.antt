-- ===== src/Comparison/Cycling/Selection.antt =====
-- Once variants have arrived, one of them is shown.
use nafir.Base.{
  ℕ, ◌≤◌, ◌≡◌, ◌⊎◌, inl, inr, Bool, true, false, not, ◌||◌, ◌==◌, Option, none, some, List, [], ◌∷◌,
  ltb, leb, arith, refl, Bool-cases, Text, ap, sym, branch, branch_true, branch_false,
}
use mathlib.Core.Path.{subst}
use nafir.Comparison.{Live, Effect}
use nafir.Comparison.Cycling.{
  first_visible, is_selecting, is_configuring, busy_toast, handle_go, observe_variants,
  select_variant, cycle_variant, answer_for, selection_answer, selection_restored,
}

-- The variant that a selection in flight falls back to has arrived.
abbrev pub FallsBack : ℕ → Option ℕ → Type 0
FallsBack arrived none = Unit {0}
FallsBack arrived (some previous) = (1 ≤ previous) × (previous ≤ arrived)

-- Nothing has arrived and nothing is shown, or the visible variant is one that has arrived.
abbrev pub IsShown : ℕ → ℕ → Type 0
IsShown arrived visible = ((arrived ≡ 0) × (visible ≡ 0)) ⊎ ((1 ≤ visible) × (visible ≤ arrived))

pub record IsConsistent (t : Live) : Type 0 where
  pub shown : IsShown t.arrived t.visible
  pub falls_back : FallsBack t.arrived t.selecting

-- What can happen to a comparison between Go and its end.
pub data Call : Type 0 where
  observe : ℕ → ℕ → ℕ → Call
  select : ℕ → Call
  cycle : Bool → Call
  answered : Bool → Call
  restored : Call

unfoldable pub step : Live → Call → Live
unfolding observe_variants select_variant cycle_variant selection_answer selection_restored
step t (observe count announced saved) = (observe_variants count announced saved t).0
step t (select next) = (select_variant next t).0
step t (cycle forward) = (cycle_variant forward t).0
step t (answered shown) = (selection_answer shown t).0
step t restored = (selection_restored t).0

unfoldable pub run : Live → List Call → Live
unfolding step
run t [] = t
run t (c ∷ cs) = run (step t c) cs

FallsBack-le : (a b : ℕ) (s : Option ℕ) → a ≤ b → FallsBack a s → FallsBack b s
FallsBack-le a b none le h = tt
FallsBack-le a b (some previous) le h = omega arith

first_visible-IsShown :
    (arrived count saved visible : ℕ)
    → leb count arrived ≡ false
    → IsShown arrived visible
    → IsShown count (first_visible visible saved count)
first_visible-IsShown arrived count saved visible more (inl (none_yet, hidden)) =
    inr (ground (arith, more, hidden), ground (arith, more, hidden))
first_visible-IsShown arrived count saved visible more (inr (one, up)) =
    inr (ground (arith, more), ground (arith, more))

abbrev Keeps : Live × List Effect → Type 0
Keeps r = IsConsistent r.0

observe-IsConsistent :
    (count announced saved : ℕ) (t : Live)
    → IsConsistent t
    → IsConsistent (observe_variants count announced saved t).0
unfolding observe_variants
observe-IsConsistent count announced saved t h = elim (Bool-cases (leb count t.arrived)) [
  | inl old ↦ branch_true Keeps _ _ old h
  | inr new ↦
      branch_false Keeps _ (t, []) new
        (record {
          shown = first_visible-IsShown t.arrived count saved t.visible new h.shown;
          falls_back = FallsBack-le t.arrived count t.selecting (ground (arith, new)) h.falls_back;
        })
]

in_range :
    (next arrived visible : ℕ)
    → (ltb next 1 || ltb arrived next || (next == visible)) ≡ false
    → IsShown arrived visible
    → (1 ≤ next) × (next ≤ arrived) × (1 ≤ visible) × (visible ≤ arrived)
in_range next arrived visible ok (inl (none_yet, hidden)) = absurd (ground (arith, ok))
in_range next arrived visible ok (inr (one, up)) = ground (arith, ok)

select-IsConsistent :
    (next : ℕ) (t : Live) → IsConsistent t → IsConsistent (select_variant next t).0
unfolding select_variant
select-IsConsistent next t h =
    elim (Bool-cases (ltb next 1 || ltb t.arrived next || (next == t.visible))) [
      | inl out ↦
          branch Keeps t.pending_apply_in_flight h
            (branch Keeps (is_selecting t.selecting) h (branch_true Keeps _ _ out h))
      | inr ok ↦
          let (low, high, one, up) = in_range next t.arrived t.visible ok h.shown in
          branch Keeps t.pending_apply_in_flight h (
            branch Keeps (is_selecting t.selecting) h (
              branch_false Keeps _ (t, []) ok
                (record { shown = inr (low, high); falls_back = (one, up) })))
    ]

answer-IsConsistent :
    (shown : Bool) (previous : Option ℕ) (t : Live)
    → t.selecting ≡ previous
    → IsConsistent t
    → IsConsistent (answer_for shown previous t).0
unfolding answer_for
answer-IsConsistent shown none t e h = h
answer-IsConsistent true (some previous) t e h = record { shown = h.shown; falls_back = tt }
answer-IsConsistent false (some previous) t e h =
    let back : FallsBack t.arrived (some previous) = subst (FallsBack t.arrived) e h.falls_back in
    record { shown = inr back; falls_back = h.falls_back }

go-IsConsistent :
    (id : Text) (count : ℕ) (t : Live)
    → t.pending_apply_in_flight ≡ false
    → is_configuring t.state ≡ true
    → t.selecting ≡ none
    → IsConsistent (handle_go true id count t).0
unfolding handle_go
go-IsConsistent id count t free ready idle =
    branch_false Keeps t.pending_apply_in_flight (t, busy_toast ∷ []) free
      (branch_false Keeps (not (is_configuring t.state)) (t, []) (ap not ready)
        (record { shown = inl (refl, refl); falls_back = subst (FallsBack 0) (sym idle) tt }))

step-IsConsistent : (t : Live) (c : Call) → IsConsistent t → IsConsistent (step t c)
unfolding step cycle_variant selection_answer selection_restored
step-IsConsistent t (observe count announced saved) h =
    observe-IsConsistent count announced saved t h
step-IsConsistent t (select next) h = select-IsConsistent next t h
step-IsConsistent t (cycle forward) h = select-IsConsistent _ t h
step-IsConsistent t (answered shown) h = answer-IsConsistent shown t.selecting t refl h
step-IsConsistent t restored h =
    branch Keeps (is_selecting t.selecting) (record { shown = h.shown; falls_back = tt }) h

run-IsConsistent : (t : Live) (cs : List Call) → IsConsistent t → IsConsistent (run t cs)
unfolding run
run-IsConsistent t [] h = h
run-IsConsistent t (c ∷ cs) h = run-IsConsistent (step t c) cs (step-IsConsistent t c h)

-- After Go, whatever variants arrive and whatever selections are made, succeed or fail, with one in
-- flight or not: as long as nothing has arrived the visible variant is 0, and from then on it is
-- one of those that have arrived. No selection is in flight at Go, which finds the page configuring.
pub run-IsShown :
    (id : Text) (count : ℕ) (t : Live) (cs : List Call)
    → t.pending_apply_in_flight ≡ false
    → is_configuring t.state ≡ true
    → t.selecting ≡ none
    → IsShown
        (run (handle_go true id count t).0 cs).arrived
        (run (handle_go true id count t).0 cs).visible
run-IsShown id count t cs free ready idle =
    (run-IsConsistent (handle_go true id count t).0 cs
      (go-IsConsistent id count t free ready idle)).shown
