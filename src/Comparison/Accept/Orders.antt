-- ===== src/Comparison/Accept/Orders.antt =====
-- An accept that the helper takes ends the comparison, in whatever order its answers come.
use nafir.Base.{
  ℕ, ◌≡◌, Bool, true, false, not, ◌&&◌, ◌||◌, ◌==◌, none, some, List, [], ◌∷◌, ◌++◌, any,
  any-append, if◌then◌else◌, arith, refl, ap, sym, ◌∙◌, Text, is_empty, text_eq, text_eq_iff,
  Bool-cases, inl, inr, branch_true, branch_false,
}
use mathlib.Core.Path.{subst}
use nafir.Target.Tab.{picking}
use nafir.Comparison.{
  Accepted, Live, Effect, mark_handled, commit_component, is_pending, handled_now,
}
use nafir.Comparison.Cycling.{busy_toast, is_selecting}
use nafir.Comparison.Accept.{
  is_saving, has_pending, accept_now, handle_accept, accept_stored_for, accept_stored, complete_for,
  finalize, schedule_accept_cleanup, maybe_complete_accepted_session, cleanup_accepted_session,
  cleanup_due,
}

-- `stored` is the answer to the request, `completed` the message of the helper about the session,
-- and `cleaned` the microtask that either of them schedules.
pub data Answer : Type 0 where
  stored completed cleaned : Answer

unfoldable pub step : Accepted → Live → Answer → Live × List Effect
unfolding accept_stored maybe_complete_accepted_session cleanup_due
step a t stored = accept_stored a.id t
step a t completed = (maybe_complete_accepted_session a.id t).1
step a t cleaned = cleanup_due a t

unfoldable pub run : Accepted → Live → List Answer → Live × List Effect
unfolding step
run a t [] = (t, [])
run a t (e ∷ es) =
    let (t', sent) = step a t e in let (t'', later) = run a t' es in (t'', sent ++ later)

abbrev pub is_cleaned : Answer → Bool
is_cleaned cleaned = true
is_cleaned _ = false

abbrev pub marks : Text → Effect → Bool
marks id (mark_handled s) = text_eq s id
marks id _ = false

-- The page is free for the next pick.
abbrev pub IsReleased : Live → Type 0
IsReleased t = (t.session ≡ []) × (t.pending ≡ none) × (t.state ≡ picking)

-- The accept of the page's session is under way.
abbrev IsWaiting : Text → Live → Type 0
IsWaiting id t = (b : Accepted) × (t.pending ≡ some b) × (b.id ≡ id) × (t.session ≡ id)

-- No answer has come yet.
abbrev IsFresh : Text → Live → Type 0
IsFresh id t =
    (b : Accepted) × (t.pending ≡ some b) × (b.id ≡ id) × (t.session ≡ id) × (b.finalizing ≡ false)

-- `handleAccept` is not held back, and there is something to accept.
pub record IsAcceptable (t : Live) : Type 0 where
  pub free : t.pending_apply_in_flight ≡ false
  pub fresh : t.pending ≡ none
  pub open_ : is_saving t.state ≡ false
  pub settled : t.selecting ≡ none
  pub current : is_empty t.session ≡ false
  pub some_arrived : (t.arrived == 0) ≡ false

pub handle_accept-now :
    (shown : ℕ) (component : Bool) (t : Live)
    → IsAcceptable t
    → handle_accept shown component t ≡ accept_now shown component t
unfolding handle_accept
handle_accept-now shown component t h =
    let Goal : Live × List Effect → Type 0 = λ r. r ≡ accept_now shown component t in
    let pending : has_pending t.pending ≡ false = ap has_pending h.fresh in
    branch_false Goal t.pending_apply_in_flight (t, busy_toast ∷ []) h.free
      (branch_false Goal (has_pending t.pending || is_saving t.state) (t, [])
        (ground (arith, pending, h.open_))
        (branch_false Goal (is_selecting t.selecting) _ (ap is_selecting h.settled) refl))

accept_now-IsFresh :
    (shown : ℕ) (component : Bool) (t : Live)
    → is_empty t.session ≡ false
    → (t.arrived == 0) ≡ false
    → IsFresh t.session (accept_now shown component t).0
unfolding accept_now
accept_now-IsFresh shown component t current arrived =
    branch_false (λ (r : Live × List Effect). IsFresh t.session r.0)
      (is_empty t.session || (t.arrived == 0)) _ (ground (arith, current, arrived))
      (_, refl, refl, refl, refl)

pub accept-IsFresh :
    (shown : ℕ) (component : Bool) (t : Live)
    → IsAcceptable t
    → IsFresh t.session (handle_accept shown component t).0
accept-IsFresh shown component t h =
    subst (λ (r : Live × List Effect). IsFresh t.session r.0)
      (sym (handle_accept-now shown component t h))
      (accept_now-IsFresh shown component t h.current h.some_arrived)

equal_texts : (a b : Text) → a ≡ b → text_eq a b ≡ true
equal_texts a b e = (text_eq_iff a b).1 e

IsSent : Text → Live × List Effect → Type 0
IsSent id r = IsWaiting id r.0 × (any (marks id) r.1 ≡ true)

absurd-fresh : {B : Type 0} → true ≡ false → B
absurd-fresh h = cc

handled_now-marks :
    (id : Text) (t : Live)
    → is_empty id ≡ false
    → t.session ≡ id
    → any (marks id) (handled_now t) ≡ true
handled_now-marks id t full same =
    let own = equal_texts t.session id same in
    branch_false (λ (es : List Effect). any (marks id) es ≡ true) (is_empty t.session) []
      (ap is_empty same ∙ full) (ground (arith, own))

stored-IsSent :
    (b : Accepted) (id : Text) (t : Live)
    → is_empty id ≡ false
    → t.pending ≡ some b
    → b.id ≡ id
    → t.session ≡ id
    → IsSent id (accept_stored_for id (some b) t)
unfolding accept_stored_for IsSent
stored-IsSent b id t full now same current =
    branch_true (IsSent id) (text_eq b.id id) (t, []) (equal_texts b.id id same)
      (
        (b, now, same, current),
        any-append (marks id) (handled_now t) (schedule_accept_cleanup b t.revision)
            ∙ ap (λ x. x || any (marks id) (schedule_accept_cleanup b t.revision))
                (handled_now-marks id t full current),
      )

finalize-IsSent :
    (b : Accepted) (id : Text) (t : Live)
    → is_empty id ≡ false
    → b.id ≡ id
    → t.session ≡ id
    → IsSent id (finalize b t)
unfolding finalize IsSent
finalize-IsSent b id t full same current =
    let b' : Accepted = record b { finalizing = true } in
    let more =
      (if b.is_component then commit_component b.id ∷ [] else [])
      ++ schedule_accept_cleanup b' t.revision in
    (
      (b', refl, same, current),
      any-append (marks id) (handled_now t) more
          ∙ ap (λ x. x || any (marks id) more) (handled_now-marks id t full current),
    )

-- A message about the accepted session passes the guards of `maybeCompleteAcceptedSession`.
complete_for-through :
    (P : Bool × (Live × List Effect) → Type 0) (b : Accepted) (id : Text) (t : Live)
    → is_empty id ≡ false
    → b.id ≡ id
    → t.session ≡ id
    → (b.finalizing ≡ true → P (true, (t, [])))
    → P (true, finalize b t)
    → P (complete_for id (some b) t)
unfolding complete_for
complete_for-through P b id t full same current again first =
    let mine : text_eq id b.id ≡ true = equal_texts id b.id (sym same) in
    let ours : text_eq t.session b.id ≡ true = equal_texts t.session b.id (current ∙ sym same) in
    branch_false P (is_empty id || not (text_eq id b.id)) _ (ground (arith, full, mine)) (
      branch_false P (not (is_empty t.session) && not (text_eq t.session b.id)) _
        (ground (arith, ours))
        (elim (Bool-cases b.finalizing) [
          | inl e ↦ branch_true P b.finalizing _ e (again e)
          | inr e ↦ branch_false P b.finalizing _ e first
        ]))

step-IsWaiting :
    (a : Accepted) (t : Live) (e : Answer)
    → is_empty a.id ≡ false
    → is_cleaned e ≡ false
    → IsWaiting a.id t
    → IsWaiting a.id (step a t e).0
unfolding step IsSent
step-IsWaiting a t stored full k (b, now, same, current) =
    subst (λ p. IsWaiting a.id (accept_stored_for a.id p t).0) (sym now)
      (stored-IsSent b a.id t full now same current).0
step-IsWaiting a t completed full k (b, now, same, current) =
    subst (λ p. IsWaiting a.id (complete_for a.id p t).1.0) (sym now)
      (complete_for-through (λ r. IsWaiting a.id r.1.0) b a.id t full same current
        (λ again. (b, now, same, current)) (finalize-IsSent b a.id t full same current).0)
step-IsWaiting a t cleaned full k h = cc

-- The first answer marks the session as handled.
first-IsSent :
    (a : Accepted) (t : Live) (e : Answer)
    → is_empty a.id ≡ false
    → is_cleaned e ≡ false
    → IsFresh a.id t
    → IsSent a.id (step a t e)
unfolding step
first-IsSent a t stored full k (b, now, same, current, fresh) =
    subst (λ p. IsSent a.id (accept_stored_for a.id p t)) (sym now)
      (stored-IsSent b a.id t full now same current)
first-IsSent a t completed full k (b, now, same, current, fresh) =
    subst (λ p. IsSent a.id (complete_for a.id p t).1) (sym now)
      (complete_for-through (λ r. IsSent a.id r.1) b a.id t full same current
        (λ again. absurd-fresh (sym again ∙ fresh)) (finalize-IsSent b a.id t full same current))
first-IsSent a t cleaned full k h = cc

cleaned-IsReleased : (a : Accepted) (t : Live) → IsWaiting a.id t → IsReleased (cleanup_due a t).0
unfolding cleanup_due cleanup_accepted_session
cleaned-IsReleased a t (b, now, same, current) =
    let mine : is_pending t.pending a.id ≡ true =
      ap (λ p. is_pending p a.id) now ∙ equal_texts b.id a.id same in
    branch_true (λ (r : Live × List Effect). IsReleased r.0) (is_pending t.pending a.id) (t, [])
      mine (refl, refl, refl)

step-IsReleased : (a : Accepted) (t : Live) (e : Answer) → IsReleased t → IsReleased (step a t e).0
unfolding step accept_stored_for complete_for
step-IsReleased a t stored h = subst (λ p. IsReleased (accept_stored_for a.id p t).0) (sym h.1) h
step-IsReleased a t completed h = subst (λ p. IsReleased (complete_for a.id p t).1.0) (sym h.1) h
step-IsReleased a t cleaned h =
    let other : is_pending t.pending a.id ≡ false = ap (λ p. is_pending p a.id) h.1 in
    branch_false (λ (r : Live × List Effect). IsReleased r.0) (is_pending t.pending a.id) _ other h

run-IsReleased :
    (a : Accepted) (t : Live) (es : List Answer) → IsReleased t → IsReleased (run a t es).0
unfolding run
run-IsReleased a t [] h = h
run-IsReleased a t (e ∷ es) h = run-IsReleased a (step a t e).0 es (step-IsReleased a t e h)

waiting-IsReleased :
    (a : Accepted) (t : Live) (es : List Answer)
    → is_empty a.id ≡ false
    → any is_cleaned es ≡ true
    → IsWaiting a.id t
    → IsReleased (run a t es).0
unfolding run
waiting-IsReleased a t [] full k h = cc
waiting-IsReleased a t (cleaned ∷ es) full k h =
    unfold step in run-IsReleased a (step a t cleaned).0 es (cleaned-IsReleased a t h)
waiting-IsReleased a t (stored ∷ es) full k h =
    waiting-IsReleased a (step a t stored).0 es full k (step-IsWaiting a t stored full refl h)
waiting-IsReleased a t (completed ∷ es) full k h =
    waiting-IsReleased a (step a t completed).0 es full k (step-IsWaiting a t completed full refl h)

-- An accept that is not held back, and that the helper takes: whichever of its answer and its
-- message comes first, and whatever else of them comes in whatever order and however often, once
-- the microtask has run the page is free for the next pick, with no session and no accept under
-- way, and the accepted session was marked as handled.
pub accept_settles :
    (shown : ℕ) (component : Bool) (t : Live) (a : Accepted) (first : Answer) (es : List Answer)
    → IsAcceptable t
    → a.id ≡ t.session
    → is_cleaned first ≡ false
    → any is_cleaned es ≡ true
    → IsReleased (run a (handle_accept shown component t).0 (first ∷ es)).0
      × (any (marks a.id) (run a (handle_accept shown component t).0 (first ∷ es)).1 ≡ true)
unfolding run IsSent
accept_settles shown component t a first es h own k c =
    let full : is_empty a.id ≡ false = ap is_empty own ∙ h.current in
    let t' = (handle_accept shown component t).0 in
    let fresh : IsFresh a.id t' =
      subst (λ id. IsFresh id t') (sym own) (accept-IsFresh shown component t h) in
    let (waits, marked) = first-IsSent a t' first full k fresh in
    (
      waiting-IsReleased a (step a t' first).0 es full c waits,
      any-append (marks a.id) (step a t' first).1 (run a (step a t' first).0 es).1
          ∙ ap (λ x. x || any (marks a.id) (run a (step a t' first).0 es).1) marked,
    )
