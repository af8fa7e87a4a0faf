-- ===== src/Recovery/Reload/Budget.antt =====
-- A handled session reloads its page twice at most.
use nafir.Base.{
  ℕ, ◌+◌, ◌≡◌, ◌≤◌, Bool, true, false, not, ◌||◌, List, [], ◌∷◌, ◌++◌, if◌then◌else◌, leb, Text,
  is_empty, text_eq, text_eq_iff, contains, arith, refl, ap, sym, Bool-cases, inl, inr, branch,
  branch_by, branch_true, all,
}
use mathlib.Core.Path.{subst}
use nafir.Recovery.Reload.{
  denied, read_only, writable, Reloads, attempts, without, clear_handled_wrapper_reload_stamp,
  set_timer, stamp, schedule_handled_runtime_wrapper_reload, load_page, Effect, reload, cleared,
  give_up, reload_due, Event, found, due, loaded, step, run,
}
use nafir.Recovery.Reload.Counts.{
  count, count-without, count-contains, contains-count, attempts-without_stamp, is_named,
  all-without, contains-named,
}

-- The reloads for a session behind the last time its stamp was cleared, with `n` before them.
abbrev pub since_cleared : Text → ℕ → List Effect → ℕ
since_cleared id n [] = n
since_cleared id n (reload k ∷ es) = since_cleared id (if text_eq k id then n + 1 else n) es
since_cleared id n (cleared k ∷ es) = since_cleared id (if text_eq k id then 0 else n) es

since_cleared-append :
    (id : Text) (n : ℕ) (a b : List Effect)
    → since_cleared id n (a ++ b) ≡ since_cleared id (since_cleared id n a) b
since_cleared-append id n [] b = refl
since_cleared-append id n (reload k ∷ es) b =
    since_cleared-append id (if text_eq k id then n + 1 else n) es b
since_cleared-append id n (cleared k ∷ es) b =
    since_cleared-append id (if text_eq k id then 0 else n) es b

-- After `n` reloads each of them has its stamp, and so has a timer, of which there is one at most.
record IsStamped (id : Text) (n : ℕ) (t : Reloads) : Type 0 where
  stamped : n + count id t.timers ≤ attempts id t.stamps
  twice : attempts id t.stamps ≤ 2
  covered : count id t.timers ≤ count id t.scheduled
  once : count id t.scheduled ≤ 1
  named : all is_named t.timers ≡ true

module _ (id : Text) (n : ℕ) (t : Reloads) (h : IsStamped id n t) where
  timer-IsStamped :
      (k : Text)
      → is_empty k ≡ false
      → contains t.scheduled k ≡ false
      → leb 2 (attempts k t.stamps) ≡ false
      → IsStamped id n (set_timer k (stamp k t))
  timer-IsStamped k some_id fresh few = elim (Bool-cases (text_eq k id)) [
    | inl same ↦
        let own : k ≡ id = (text_eq_iff k id).0 same in
        let none : count id t.scheduled ≡ 0 =
          count-contains id t.scheduled
            (subst (λ (x : Text). contains t.scheduled x ≡ false) own fresh) in
        let left : leb 2 (attempts id t.stamps) ≡ false =
          subst (λ (x : Text). leb 2 (attempts x t.stamps) ≡ false) own few in
        let equal = ap (λ (x : Text). attempts x t.stamps) own in
        record {
          stamped = rw same (omega (arith, h.stamped, equal));
          twice = rw same (ground (arith, left, equal));
          covered = rw same (omega (arith, h.covered));
          once = rw same (omega (arith, none));
          named = ground (arith, some_id, h.named);
        }
    | inr differ ↦ record {
      stamped = rw differ (omega (arith, h.stamped));
      twice = rw differ h.twice;
      covered = rw differ (omega (arith, h.covered));
      once = rw differ (omega (arith, h.once));
      named = ground (arith, some_id, h.named);
    }
  ]

  found-IsStamped :
      (k : Text) (handled superseded : Bool)
      → IsStamped id n (schedule_handled_runtime_wrapper_reload k handled superseded writable t).1
  unfolding schedule_handled_runtime_wrapper_reload
  found-IsStamped k handled superseded =
      let Kept : Bool × Reloads → Type 0 = λ r. IsStamped id n r.1 in
      branch_by Kept (is_empty k || not handled) (λ strange. h)
        (λ known. branch Kept superseded h (
          branch_by Kept (contains t.scheduled k) (λ there. h)
            (λ fresh.
              branch_by (IsStamped id n) (leb 2 (attempts k t.stamps)) (λ spent. h)
                (timer-IsStamped k (ground (arith, known)) fresh))))

  -- The timer is gone, and gives up: what stood for its session is 0.
  given_up-IsStamped :
      (k : Text)
      → is_empty k ≡ false
      → (let r = give_up k (record t { timers = without k t.timers }) in
          IsStamped id (since_cleared id n r.1) r.0)
  unfolding clear_handled_wrapper_reload_stamp
  given_up-IsStamped k some_id =
      branch_true
        (λ (u : Reloads).
          IsStamped id (if text_eq k id then 0 else n)
            (record u { scheduled = without k u.scheduled }))
        (not (is_empty k)) (record t { timers = without k t.timers; stamps = []; legacy = [] })
        (ap not some_id)
        (record {
          stamped =
              ground (
                arith,
                h.stamped,
                count-without id k t.timers,
                attempts-without_stamp id k t.stamps,
              );
          twice = ground (arith, h.twice, attempts-without_stamp id k t.stamps);
          covered =
              ground
                (arith, h.covered, count-without id k t.timers, count-without id k t.scheduled);
          once = ground (arith, h.once, count-without id k t.scheduled);
          named = all-without k t.timers h.named;
        })

  load_page-IsStamped : IsStamped id n (load_page t)
  load_page-IsStamped = record {
    stamped = omega (arith, h.stamped);
    twice = h.twice;
    covered = omega arith;
    once = omega arith;
    named = refl;
  }

  -- The page is reloaded by a timer, which had its stamp.
  reloaded-IsStamped :
      (k : Text)
      → contains t.timers k ≡ true
      → IsStamped id
          (if text_eq k id then n + 1 else n)
          (load_page (record t { timers = without k t.timers }))
  reloaded-IsStamped k there =
      let one : (text_eq k id ≡ true) → 1 ≤ count id t.timers = λ same.
        contains-count id t.timers
          (subst (λ (x : Text). contains t.timers x ≡ true) ((text_eq_iff k id).0 same) there) in
      record {
        stamped = ground (arith, h.stamped, one);
        twice = h.twice;
        covered = omega arith;
        once = omega arith;
        named = refl;
      }

  due-IsStamped :
      (k : Text) (superseded stale : Bool)
      → (let r = reload_due k superseded stale t in IsStamped id (since_cleared id n r.1) r.0)
  unfolding reload_due
  due-IsStamped k superseded stale =
      let Kept : Reloads × List Effect → Type 0 = λ r. IsStamped id (since_cleared id n r.1) r.0 in
      branch_by Kept (not (contains t.timers k)) (λ gone. h)
        (λ here.
          let there : contains t.timers k ≡ true = ground (arith, here) in
          let over = given_up-IsStamped k (contains-named k t.timers h.named there) in
          branch Kept superseded over (branch Kept stale (reloaded-IsStamped k there) over))

-- The storage takes what is written to it.
abbrev pub takes_writes : Event → Bool
takes_writes (found id handled superseded writable) = true
takes_writes (found id handled superseded denied) = false
takes_writes (found id handled superseded read_only) = false
takes_writes (due id superseded stale) = true
takes_writes loaded = true

step-IsStamped :
    (id : Text) (n : ℕ) (t : Reloads) (e : Event)
    → takes_writes e ≡ true
    → IsStamped id n t
    → IsStamped id (since_cleared id n (step e t).1) (step e t).0
unfolding step
step-IsStamped id n t (found k handled superseded writable) w h =
    found-IsStamped id n t h k handled superseded
step-IsStamped id n t (found k handled superseded denied) w h = cc
step-IsStamped id n t (found k handled superseded read_only) w h = cc
step-IsStamped id n t (due k superseded stale) w h = due-IsStamped id n t h k superseded stale
step-IsStamped id n t loaded w h = load_page-IsStamped id n t h

run-IsStamped :
    (id : Text) (es : List Event) (n : ℕ) (t : Reloads)
    → all takes_writes es ≡ true
    → IsStamped id n t
    → IsStamped id (since_cleared id n (run es t).1) (run es t).0
unfolding run
run-IsStamped id [] n t w h = h
run-IsStamped id (e ∷ es) n t w h =
    subst (λ (m : ℕ). IsStamped id m (run es (step e t).0).0)
      (sym (since_cleared-append id n (step e t).1 (run es (step e t).0).1))
      (run-IsStamped id es (since_cleared id n (step e t).1) (step e t).0 (ground (arith, w))
        (step-IsStamped id n t e (ground (arith, w)) h))

abbrev pub no_reloads : Reloads
no_reloads = record { stamps = []; legacy = []; scheduled = []; timers = [] }

-- Whatever handled wrappers are found, timers end and loads of the page occur, if the storage takes
-- what is written to it, the page is reloaded twice at most for a session between two times that
-- its stamp is cleared, and as often as its stamp counts at most.
pub run-reloads_le :
    (id : Text) (es : List Event)
    → all takes_writes es ≡ true
    → (since_cleared id 0 (run es no_reloads).1 ≤ attempts id (run es no_reloads).0.stamps)
      × (attempts id (run es no_reloads).0.stamps ≤ 2)
run-reloads_le id es w =
    let h = run-IsStamped id es 0 no_reloads w (record {
      stamped = omega arith;
      twice = omega arith;
      covered = omega arith;
      once = omega arith;
      named = refl;
    }) in
    (omega (arith, h.stamped), h.twice)
