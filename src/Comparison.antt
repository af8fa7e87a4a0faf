-- ===== src/Comparison.antt =====
-- The comparison of variants in one tab of live-browser.js: from Go over the variants that arrive to
-- accept, discard or the end that the helper announces. Here the variables and the effects;
-- `setLiveState` is the assignment to `state`, and what it retries is in Target/Tab.antt.
pub mod Cycling
pub mod Accept
pub mod Messages
mod Tests
use nafir.Base.{
  ℕ, Bool, true, false, not, ◌&&◌, ◌||◌, ◌==◌, Option, none, some, List, [], ◌∷◌, ◌++◌,
  if◌then◌else◌, Text, codes, is_empty, text_eq,
}
use nafir.Value.{Value}
use nafir.Target.Tab.{LiveState}
use nafir.Recovery.Meta.{Meta}

-- `pendingAcceptedSession`; the snapshot of the DOM in it is left out.
pub record Accepted : Type 0 where
  pub id : Text
  pub variant : ℕ
  pub is_component : Bool
  pub finalizing : Bool

-- The variables of live-browser.js, by their source names: `session` is `currentSessionId` and
-- `steer` is `steerRequestId`, both empty for null; `awaiting` is the id of `awaitingAcceptResult`,
-- `revision` is `liveInteractionRevision`, and `phase` is `generationPhase`. `selecting` is
-- `variantSelectionInFlight`, with the variable `previous` of the selection that is in flight.
pub record Live : Type 0 where
  pub state : LiveState
  pub session : Text
  pub expected : ℕ
  pub arrived : ℕ
  pub visible : ℕ
  pub phase : Option Text
  pub files : Meta
  pub selecting : Option ℕ
  pub pending_apply_in_flight : Bool
  pub pending : Option Accepted
  pub awaiting : Option Text
  pub steer : Text
  pub revision : ℕ
  pub insert_active : Bool
  pub pick_active : Bool

-- What a handler sends, stores or schedules. A timer or a request carries what its continuation
-- reads; `cleanup_soon` is the microtask and `clean_later` the timer of `scheduleAcceptCleanup`.
pub data Effect : Type 0 where
  toast : Text → Effect
  save : Effect
  clear_saved : Effect
  clear_scroll : Effect
  mark_handled : Text → Effect
  send_accept : Text → ℕ → Effect
  send_discard : Text → Effect
  checkpoint : Text → Effect
  show_variant : Text → ℕ → Effect
  await_selection : Effect
  commit_component : Text → Effect
  cleanup_soon : Accepted → Effect
  watch_wrapper : Text → ℕ → Effect
  clean_later : Accepted → ℕ → Effect
  clean_dom : Accepted → ℕ → Effect
  release_wrappers : Text → ℕ → Effect
  inject_components : Value → Text → Effect
  inject_later : Value → Text → Effect
  inject : Value → Text → Effect
  nudge_later : Effect
  parameters_ready : Effect
  unlock_steer : Text → Effect

-- `id === currentSessionId`, where there is a session.
abbrev pub is_current : Live → Text → Bool
is_current t id = not (is_empty t.session) && text_eq id t.session

-- `pendingAcceptedSession?.id === id`
abbrev pub is_pending : Option Accepted → Text → Bool
is_pending none id = false
is_pending (some a) id = text_eq a.id id

-- `awaitingAcceptResult?.id && id === awaitingAcceptResult.id`
abbrev pub is_awaited : Option Text → Text → Bool
is_awaited none id = false
is_awaited (some a) id = not (is_empty a) && text_eq id a

-- `markSessionHandled`
abbrev pub handled_now : Live → List Effect
handled_now t = if is_empty t.session then [] else mark_handled t.session ∷ []

-- `deferredRecoverySuperseded`
abbrev pub deferred_recovery_superseded : Live → Text → ℕ → Bool
deferred_recovery_superseded t id revision =
    not (t.revision == revision) || (not (is_empty t.session) && not (text_eq t.session id))
