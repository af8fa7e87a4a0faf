-- ===== src/Comparison/Accept.antt =====
-- Accept and discard: `handleAccept`, `maybeCompleteAcceptedSession`, `scheduleAcceptCleanup`,
-- `cleanupAcceptedSession`, `handleDiscard` and `cleanup`, with the continuations of their requests.
pub mod Orders
pub mod Refused
use nafir.Base.{
  ℕ, Bool, true, false, not, ◌&&◌, ◌||◌, ◌==◌, Option, none, some, List, [], ◌∷◌, ◌++◌, map,
  if◌then◌else◌, ltb, Text, codes, is_empty, text_eq,
}
use nafir.Target.Tab.{LiveState, picking, cycling, confirmed, saving}
use nafir.Recovery.Meta.{reset_session_file_meta}
use nafir.Comparison.{
  Accepted, Live, Effect, toast, save, clear_saved, clear_scroll, mark_handled, send_accept,
  send_discard, await_selection, commit_component, cleanup_soon, watch_wrapper, clean_later,
  clean_dom, release_wrappers, is_pending, handled_now, deferred_recovery_superseded,
}
use nafir.Comparison.Cycling.{busy_toast, is_selecting}

abbrev pub is_saving : LiveState → Bool
is_saving saving = true
is_saving _ = false

abbrev pub has_pending : Option Accepted → Bool
has_pending none = false
has_pending (some a) = true

-- `handleAccept` behind its guards and the wait: `shown` is the variant that the page shows, 0 if
-- none, and `is_component` says whether the preview is mounted by a framework.
unfoldable pub accept_now : ℕ → Bool → Live → Live × List Effect
accept_now shown is_component t =
    let t' : Live = record t { visible = if ltb 0 shown then shown else t.visible } in
    if is_empty t.session || (t.arrived == 0) then (t', []) else (
      record t' {
        state = saving;
        pending = some (record {
          id = t.session;
          variant = t'.visible;
          is_component = is_component;
          finalizing = false;
        });
      },
      save ∷ send_accept t.session t'.visible ∷ [],
    )

-- `handleAccept`; while a selection is in flight the rest waits for it, and asks no guard again.
unfoldable pub handle_accept : ℕ → Bool → Live → Live × List Effect
unfolding accept_now
handle_accept shown is_component t =
    if t.pending_apply_in_flight
    then (t, busy_toast ∷ [])
    else if has_pending t.pending || is_saving t.state
    then (t, [])
    else if is_selecting t.selecting
    then (t, await_selection ∷ [])
    else accept_now shown is_component t

-- The effects of `scheduleAcceptCleanup`.
abbrev pub schedule_accept_cleanup : Accepted → ℕ → List Effect
schedule_accept_cleanup a revision =
    cleanup_soon a
    ∷ (if a.is_component then [] else watch_wrapper a.id revision ∷ clean_later a revision ∷ [])

-- The helper has stored the accept of session `id`.
unfoldable pub accept_stored_for : Text → Option Accepted → Live → Live × List Effect
accept_stored_for id none t = (t, [])
accept_stored_for id (some a) t =
    if text_eq a.id id
    then (
      record t { state = confirmed; awaiting = some id },
      handled_now t ++ schedule_accept_cleanup a t.revision,
    )
    else (t, [])

unfoldable pub accept_stored : Text → Live → Live × List Effect
unfolding accept_stored_for
accept_stored id t = accept_stored_for id t.pending t

-- The request failed.
unfoldable pub accept_refused : Text → Live → Live × List Effect
accept_refused id t = (
  record t { pending = if is_pending t.pending id then none else t.pending; state = cycling },
  toast (
        codes
          "Could not confirm accept with the live server. Session kept for recovery; try Accept again.")
      ∷ [],
)

-- The part of `maybeCompleteAcceptedSession` behind its guards.
pub finalize : Accepted → Live → Live × List Effect
finalize a t =
    let a' : Accepted = record a { finalizing = true } in
    (
      record t { pending = some a'; state = confirmed },
      handled_now t
          ++ ((if a.is_component then commit_component a.id ∷ [] else [])
              ++ schedule_accept_cleanup a' t.revision),
    )

-- `maybeCompleteAcceptedSession` for a message about session `id`; the flag is its result.
unfoldable pub complete_for : Text → Option Accepted → Live → Bool × (Live × List Effect)
unfolding finalize
complete_for id none t = (false, (t, []))
complete_for id (some a) t =
    if is_empty id || not (text_eq id a.id)
    then (false, (t, []))
    else if not (is_empty t.session) && not (text_eq t.session a.id)
    then (false, (record t { pending = none }, []))
    else if a.finalizing
    then (true, (t, []))
    else (true, finalize a t)

unfoldable pub maybe_complete_accepted_session : Text → Live → Bool × (Live × List Effect)
unfolding complete_for
maybe_complete_accepted_session id t = complete_for id t.pending t

-- What `cleanupAcceptedSession` resets.
pub cleanup_accepted_session : Live → Live × List Effect
cleanup_accepted_session t = (
  record t { session = []; files = reset_session_file_meta; pending = none; state = picking },
  clear_scroll ∷ clear_saved ∷ [],
)

-- The microtask of `scheduleAcceptCleanup`.
unfoldable pub cleanup_due : Accepted → Live → Live × List Effect
unfolding cleanup_accepted_session
cleanup_due a t =
    if is_pending t.pending a.id
    then (let (t', sent) = cleanup_accepted_session t in
        (t', (if a.is_component then commit_component a.id ∷ [] else []) ++ sent))
    else (t, [])

-- Its timer: the page is cleaned by hand only if nothing newer has begun.
unfoldable pub clean_due : Accepted → ℕ → Live → List Effect
clean_due a revision t =
    if deferred_recovery_superseded t a.id revision then [] else clean_dom a revision ∷ []

-- What `cleanup` resets; its timer is for the wrappers of the session that it ends.
unfoldable pub cleanup : Live → Live × List Effect
cleanup t = (
  record t { session = []; files = reset_session_file_meta; state = picking },
  (if is_empty t.session then [] else release_wrappers t.session t.revision ∷ [])
      ++ clear_scroll ∷ clear_saved ∷ [],
)

-- `markSessionHandled(); cleanup(…)`
unfoldable pub end_session : Live → Live × List Effect
unfolding cleanup
end_session t = let (t', sent) = cleanup t in (t', handled_now t ++ sent)

pub handle_discard : Live → Live × List Effect
handle_discard t =
    if t.pending_apply_in_flight
    then (t, busy_toast ∷ [])
    else if is_empty t.session
    then (t, [])
    else (t, send_discard t.session ∷ [])

-- The continuations of the discard of session `id`; they do not ask for the id.
unfoldable pub discard_stored : Text → Live → Live × List Effect
unfolding end_session
discard_stored id t = end_session t

pub discard_refused : Text → Live → Live × List Effect
discard_refused id t = (
  t,
  toast (codes "Could not confirm discard with the live server. Session kept for recovery.") ∷ [],
)
