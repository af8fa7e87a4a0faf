-- ===== src/Comparison/Accept/Refused.antt =====
-- An accept that the helper does not take leaves the comparison as it was.
use nafir.Base.{
  ℕ, ◌≡◌, Bool, false, ◌||◌, ◌==◌, none, List, [], ◌∷◌, if◌then◌else◌, ltb, arith, refl, ap, ◌∙◌,
  is_empty, text_eq, text_eq_refl, branch_true, branch_false, Option,
}
use nafir.Target.Tab.{cycling}
use nafir.Comparison.{Accepted, Live, Effect, save, send_accept}
use nafir.Comparison.Accept.{accept_now, handle_accept, accept_refused}
use nafir.Comparison.Accept.Orders.{IsAcceptable, handle_accept-now}

-- The variant that is accepted: the one that the page shows, or else the visible one.
abbrev pub chosen : ℕ → Live → ℕ
chosen shown t = if ltb 0 shown then shown else t.visible

-- The comparison as it was, cycling, with the chosen variant visible.
abbrev pub kept : ℕ → Live → Live
kept shown t = record t { state = cycling; visible = chosen shown t; pending = none }

accept_now-refused :
    (shown : ℕ) (component : Bool) (t : Live)
    → is_empty t.session ≡ false
    → (t.arrived == 0) ≡ false
    → (accept_refused t.session (accept_now shown component t).0).0 ≡ kept shown t
unfolding accept_now accept_refused
accept_now-refused shown component t current arrived =
    branch_false (λ (r : Live × List Effect). (accept_refused t.session r.0).0 ≡ kept shown t)
      (is_empty t.session || (t.arrived == 0)) _ (ground (arith, current, arrived))
      (branch_true (λ (p : Option Accepted). record (kept shown t) { pending = p } ≡ kept shown t)
        (text_eq t.session t.session) _ (text_eq_refl t.session) refl)

accept_now-sends :
    (shown : ℕ) (component : Bool) (t : Live)
    → is_empty t.session ≡ false
    → (t.arrived == 0) ≡ false
    → (accept_now shown component t).1 ≡ save ∷ send_accept t.session (chosen shown t) ∷ []
unfolding accept_now
accept_now-sends shown component t current arrived =
    branch_false
      (λ (r : Live × List Effect). r.1 ≡ save ∷ send_accept t.session (chosen shown t) ∷ [])
      (is_empty t.session || (t.arrived == 0)) _ (ground (arith, current, arrived)) refl

kept-IsAcceptable : (shown : ℕ) (t : Live) → IsAcceptable t → IsAcceptable (kept shown t)
kept-IsAcceptable shown t h = record {
  free = h.free;
  fresh = refl;
  open_ = refl;
  settled = h.settled;
  current = h.current;
  some_arrived = h.some_arrived;
}

-- An accept that is not held back, and whose request fails, leaves the comparison as it was, with
-- the chosen variant visible and the page cycling; and the next accept is sent for the same session.
pub accept_refused-kept :
    (shown again : ℕ) (component component' : Bool) (t : Live)
    → IsAcceptable t
    → ((accept_refused t.session (handle_accept shown component t).0).0 ≡ kept shown t)
      × ((handle_accept again component' (kept shown t)).1
          ≡ save ∷ send_accept t.session (chosen again (kept shown t)) ∷ [])
accept_refused-kept shown again component component' t h =
    let h' = kept-IsAcceptable shown t h in
    (
      ap (λ (r : Live × List Effect). (accept_refused t.session r.0).0)
            (handle_accept-now shown component t h)
          ∙ accept_now-refused shown component t h.current h.some_arrived,
      ap (λ (r : Live × List Effect). r.1) (handle_accept-now again component' (kept shown t) h')
          ∙ accept_now-sends again component' (kept shown t) h'.current h'.some_arrived,
    )
