-- ===== src/Comparison/Tests.antt =====
-- The laws of the comparison at inputs, and tests of what overlapping answers do.
use nafir.Base.{◌≡◌, true, false, none, [], ◌∷◌, refl, codes, any}
use nafir.Target.Tab.{picking, configuring, generating, cycling}
use nafir.Recovery.Meta.{reset_session_file_meta}
use nafir.Comparison.{Accepted, Live, send_accept, save}
use nafir.Comparison.Cycling.{handle_go}
use nafir.Comparison.Cycling.Selection.{
  run-IsShown, IsShown, observe, select, cycle, answered, restored,
}
use nafir.Comparison.Cycling.Selection
use nafir.Comparison.Accept.{handle_accept, accept_refused, discard_stored, accept_now}
use nafir.Comparison.Accept.Orders.{accept_settles, IsReleased, marks, stored, completed, cleaned}
use nafir.Comparison.Accept.Orders
use nafir.Comparison.Accept.Refused.{accept_refused-kept, kept, chosen}
use nafir.Comparison.Messages.{on_session_error}
use nafir.Comparison.Messages.Stale

-- A page where an element is picked.
abbrev picked : Live
picked = record {
  state = configuring;
  session = [];
  expected = 0;
  arrived = 0;
  visible = 0;
  phase = none;
  files = reset_session_file_meta;
  selecting = none;
  pending_apply_in_flight = false;
  pending = none;
  awaiting = none;
  steer = [];
  revision = 0;
  insert_active = false;
  pick_active = true;
}

-- Two of three variants have arrived, and the first is shown.
abbrev comparing : Live
comparing = record picked {
  state = cycling;
  session = codes "s1";
  expected = 3;
  arrived = 2;
  visible = 1;
}

-- The next session, whose variants are awaited.
abbrev next_one : Live
next_one = record picked { state = generating; session = codes "s2"; expected = 3 }

abbrev accepted : Accepted
accepted = record { id = codes "s1"; variant = 1; is_component = false; finalizing = false }

-- Go for three variants; two arrive, the second is selected and cannot be shown.
run-IsShown_example :
    IsShown
      (Selection.run
        (handle_go true (codes "s1") 3 picked).0
        (observe 2 3 0 ∷ select 2 ∷ answered false ∷ restored ∷ [])).arrived
      (Selection.run
        (handle_go true (codes "s1") 3 picked).0
        (observe 2 3 0 ∷ select 2 ∷ answered false ∷ restored ∷ [])).visible
run-IsShown_example =
    run-IsShown (codes "s1") 3 picked (observe 2 3 0 ∷ select 2 ∷ answered false ∷ restored ∷ [])
      refl refl refl

comparing-IsAcceptable : Orders.IsAcceptable comparing
comparing-IsAcceptable = record {
  free = refl;
  fresh = refl;
  open_ = refl;
  settled = refl;
  current = refl;
  some_arrived = refl;
}

accept_settles_example :
    IsReleased
      (Orders.run accepted
        (handle_accept 1 false comparing).0
        (completed ∷ stored ∷ cleaned ∷ [])).0
    × (any
          (marks (codes "s1"))
          (Orders.run accepted
            (handle_accept 1 false comparing).0
            (completed ∷ stored ∷ cleaned ∷ [])).1
        ≡ true)
accept_settles_example =
    accept_settles 1 false comparing accepted completed (stored ∷ cleaned ∷ [])
      comparing-IsAcceptable refl refl refl

accept_refused-kept_example :
    ((accept_refused (codes "s1") (handle_accept 2 false comparing).0).0 ≡ kept 2 comparing)
    × ((handle_accept 0 false (kept 2 comparing)).1
        ≡ save ∷ send_accept (codes "s1") (chosen 0 (kept 2 comparing)) ∷ [])
accept_refused-kept_example = accept_refused-kept 2 0 false false comparing comparing-IsAcceptable

-- The answer to the discard of s1, after Go for s2: s2 is marked as handled, and its page is freed.
discard_after_go :
    ((discard_stored (codes "s1") next_one).0.session ≡ [])
    × (any (marks (codes "s2")) (discard_stored (codes "s1") next_one).1 ≡ true)
unfolding discard_stored
discard_after_go = (refl, refl)

-- An error of another session, while the variants of s2 are awaited: the tab is picking again, and
-- s2 is still its session.
error_of_another :
    ((on_session_error (codes "s1") [] (codes "failed") next_one).0.state ≡ picking)
    × ((on_session_error (codes "s1") [] (codes "failed") next_one).0.session ≡ codes "s2")
unfolding on_session_error
error_of_another = (refl, refl)

-- Two accepts that waited for the same selection are both sent.
accept_twice :
    (accept_now 1 false (accept_now 1 false comparing).0).1 ≡ save ∷ send_accept (codes "s1") 1 ∷ []
unfolding accept_now
accept_twice = refl

-- The answer to an accept that failed, after the session has ended: the tab is cycling without one.
refused_after_end :
    ((accept_refused (codes "s1") picked).0.state ≡ cycling)
    × ((accept_refused (codes "s1") picked).0.session ≡ [])
unfolding accept_refused
refused_after_end = (refl, refl)
