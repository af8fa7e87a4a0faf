-- ===== src/Comparison/Messages/Stale.antt =====
-- What comes late for an older session leaves a newer comparison alone.
use nafir.Base.{ℕ, ◌≡◌, Bool, true, false, Option, none, List, [], Text, any, is_empty, text_eq}
use nafir.Value.{Value}
use nafir.Comparison.{
  Accepted, Live, Effect, save, mark_handled, send_accept, send_discard, commit_component,
  cleanup_soon, clean_later, clean_dom, release_wrappers,
}
use nafir.Recovery.Meta.{Meta}
use nafir.Comparison.Accept.{
  accept_refused, accept_stored, maybe_complete_accepted_session, cleanup_due, clean_due,
}
use nafir.Comparison.Messages.{
  on_agent_phase, on_variant_progress, injection_due, on_complete, on_agent_done, on_discarded,
  abandon_superseded_go, abandon_foreign_session, on_done, on_error,
}

-- Messages, answers and timers that carry the id of the session that they are for.
pub data Late : Type 0 where
  phase_came : Option Text → Late
  progress_came : Value → Late
  completed discarded accept_taken superseded : Late
  agent_done : Bool → Late
  foreign : Text → Late
  cleanup_runs clean_runs : Accepted → ℕ → Late
  injection_runs : Value → Late
  done : Value → Late
  errored : Text → Text → Late
  accept_failed : Late

pub deliver : Late → Text → Live → Live × List Effect
unfolding on_complete on_agent_done on_discarded accept_stored maybe_complete_accepted_session
    cleanup_due clean_due injection_due on_agent_phase on_variant_progress on_done on_error
    accept_refused
deliver (phase_came phase) id t = on_agent_phase id phase t
deliver (progress_came msg) id t = on_variant_progress id msg t
deliver completed id t = on_complete id t
deliver discarded id t = on_discarded id t
deliver accept_taken id t = accept_stored id t
deliver superseded id t = abandon_superseded_go id t
deliver (agent_done carbonize) id t = on_agent_done id carbonize t
deliver (foreign abandoned) id t = (abandon_foreign_session abandoned id t).1
deliver (cleanup_runs a revision) id t = cleanup_due (record a { id = id }) t
deliver (clean_runs a revision) id t = (t, clean_due (record a { id = id }) revision t)
deliver (injection_runs file) id t = (t, injection_due file id t)
deliver (done msg) id t = on_done id msg t
deliver (errored stored message) id t = on_error id stored message t
deliver accept_failed id t = accept_refused id t

-- A newer session: it has an id of its own, and no accept is under way or awaited.
pub record IsNewer (id : Text) (t : Live) : Type 0 where
  pub current : is_empty t.session ≡ false
  pub other : text_eq id t.session ≡ false
  pub fresh : t.pending ≡ none
  pub unawaited : t.awaiting ≡ none

abbrev Untouched : Live → Live × List Effect → Type 0
Untouched t r = r ≡ (t, [])

abbrev Silent : Live → List Effect → Type 0
Silent t es = Untouched t (t, es)

-- What ends, accepts, discards or saves a session, or takes its variants away.
abbrev pub is_decision : Effect → Bool
is_decision save = true
is_decision (mark_handled s) = true
is_decision (send_accept s n) = true
is_decision (send_discard s) = true
is_decision (commit_component s) = true
is_decision (cleanup_soon a) = true
is_decision (clean_later a n) = true
is_decision (clean_dom a n) = true
is_decision (release_wrappers s n) = true
is_decision _ = false

-- But for `state`, `steer` and the files, nothing is changed, and nothing is decided.
unfoldable pub IsMild : Live → Live × List Effect → Type 0
IsMild t r =
    (record r.0 { state = t.state; steer = t.steer; files = t.files } ≡ t)
    × (any is_decision r.1 ≡ false)

-- `done`, `error` and an accept whose request failed are mild, and all else changes nothing.
abbrev pub IsKept : Late → Live → Live × List Effect → Type 0
IsKept (done msg) t r = IsMild t r
IsKept (errored stored message) t r = IsMild t r
IsKept accept_failed t r = IsMild t r
IsKept _ t r = Untouched t r
