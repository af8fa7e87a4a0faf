-- ===== src/Steer.antt =====
-- The chat that steers a page, live-browser.js: `submitSteerMessage`, `maybeCompleteSteer`,
-- `unlockSteerChat`, the timeout, and the input of the chat with its button.
pub mod Input
pub mod Run
pub mod Settled
pub mod Restored
mod Tests
use nafir.Base.{
  ℕ, Bool, true, false, not, ◌&&◌, ◌||◌, ◌==◌, Option, none, some, List, [], ◌∷◌, ◌++◌,
  if◌then◌else◌, Text, codes, is_empty, text_eq, starts_with, drop, trim,
}

-- `steerLocked`, `steerRequestId`, `steerPendingMessage`, `pageChatExpanded`, the value of the
-- input, `steerInputWasFocused`, and the request that the timer `steerAwaitTimer` is for. The chat
-- is on the page; its input is disabled while it is locked.
pub record Chat : Type 0 where
  pub locked : Bool
  pub request : Option Text
  pub pending : Text
  pub expanded : Bool
  pub value : Text
  pub was_focused : Bool
  pub timer : Option Text

abbrev pub initial : Chat
initial = record {
  locked = false;
  request = none;
  pending = [];
  expanded = false;
  value = [];
  was_focused = false;
  timer = none;
}

-- `reason` of a checkpoint, with the texts that it carries.
pub data Reason : Type 0 where
  steer_input_focused : Reason
  steer_submitted : Text → Reason
  steer_done steer_error : Text → Text → Reason

-- What the chat does outside: a steer that is posted, a checkpoint, a toast, and the timer of 4.5 s
-- behind a change of a component.
pub data Effect : Type 0 where
  steer : Text → Text → Effect
  checkpoint : Text → Reason → Effect
  toast : Text → Effect
  reload_timer : Effect

-- The options of `unlockSteerChat`; a text is empty if it is not given.
pub record Outcome : Type 0 where
  pub error : Text
  pub restore_message : Text
  pub message : Text
  pub file : Text

abbrev pub keeps_expanded : Outcome → Bool
keeps_expanded o = not (is_empty o.error) && not (is_empty o.restore_message)

-- `a || b` of texts
abbrev pub or_text : Text → Text → Text
or_text [] t = t
or_text (c ∷ s) t = c ∷ s

abbrev pub toasts_of : Outcome → List Effect
toasts_of o =
    if not (is_empty o.error)
    then toast o.error ∷ []
    else if not (is_empty o.message)
    then toast o.message ∷ []
    else []

abbrev pub outcome_checkpoint : Outcome → Option Text → List Effect
outcome_checkpoint o none = []
outcome_checkpoint o (some id) =
    checkpoint id (
      if is_empty o.error
      then steer_done (or_text o.message o.error) o.file
      else steer_error (or_text o.message o.error) o.file)
    ∷ []

-- `unlockSteerChat`; `focuses` says whether the input has the focus in the end.
unfoldable pub unlock_steer_chat : Outcome → Bool → Chat → Chat × List Effect
unlock_steer_chat o focuses t =
    let kept = if keeps_expanded o then o.restore_message else [] in
    (
      record {
        locked = false;
        request = none;
        pending = kept;
        expanded = keeps_expanded o;
        value = kept;
        was_focused = focuses;
        timer = none;
      },
      toasts_of o ++ outcome_checkpoint o t.request,
    )

-- `preparePageChatInputForTyping`, `lockSteerChat` and `scheduleSteerAwaitTimeout`
abbrev pub prepare_page_chat_input_for_typing : Chat → Chat
prepare_page_chat_input_for_typing t = record t { expanded = true }

abbrev pub lock_steer_chat : Chat → Chat
lock_steer_chat t = prepare_page_chat_input_for_typing (record t { locked = true })

abbrev pub schedule_steer_await_timeout : Text → Chat → Chat
schedule_steer_await_timeout id t = record t { timer = some id }

-- `submitSteerMessage`; `id` is `id8()`.
unfoldable pub submit_steer_message : Text → Chat → Chat × List Effect
submit_steer_message id t = if is_empty (trim t.value) || t.locked then (t, []) else (
  schedule_steer_await_timeout id
      (lock_steer_chat (record t { request = some id; pending = trim t.value })),
  steer id (trim t.value) ∷ [],
)

-- The continuation of the post of a steer with that id and text: the helper took it, or not.
unfoldable pub steer_posted : Text → Text → Bool → Bool → Chat → Chat × List Effect
steer_posted id text taken focuses t =
    if not taken
    then unlock_steer_chat
        (record {
          error = codes "Could not reach live server";
          restore_message = text;
          message = [];
          file = [];
        })
        focuses t
    else (
      t,
      (if t.was_focused then checkpoint id steer_input_focused ∷ [] else [])
          ++ checkpoint id (steer_submitted text) ∷ [],
    )

-- `steerTimeoutMessage`; the agent polls, and work is in flight.
abbrev pub steer_timeout_message : Bool → Bool → Chat → Text
steer_timeout_message polling working t =
    codes "Steer timed out after 2 minutes. "
    ++ (if t.locked && not polling && working
        then codes
            "The agent is still busy with the current generation - your message was not lost, but it never got picked up. Send it again once the variants land."
        else if not polling
        then codes "No agent is polling right now. Run live-poll.mjs, then send it again."
        else codes
            "The agent picked it up but never replied with steer_done. Check the agent session for a stalled or failed steer.")

abbrev pub is_request : Option Text → Text → Bool
is_request none id = false
is_request (some own) id = text_eq own id

-- The callback of the timer for a request.
abbrev pub due : Bool → Bool → Bool → Chat → Option Text → Chat × List Effect
due polling working focuses t none = (t, [])
due polling working focuses t (some id) =
    if not t.locked || not (is_request t.request id)
    then (t, [])
    else unlock_steer_chat
        (record {
          error = steer_timeout_message polling working t;
          restore_message = t.pending;
          message = [];
          file = [];
        })
        focuses t

unfoldable pub steer_timed_out : Bool → Bool → Bool → Chat → Chat × List Effect
steer_timed_out polling working focuses t = due polling working focuses t t.timer

-- `msg.type`, and a message of the helper; a text is empty if it is not given.
pub data Kind : Type 0 where
  is_done is_error is_other : Kind

pub record Message : Type 0 where
  pub kind : Kind
  pub id : Text
  pub message : Text
  pub file : Text

-- `/\.svelte(?:$|\?)/.test(file)`
abbrev pub ends_here : Text → Bool
ends_here [] = true
ends_here (c ∷ s) = c == b'?'

abbrev pub names_svelte : Text → Bool
names_svelte [] = false
names_svelte (c ∷ s) =
    (starts_with (c ∷ s) (codes ".svelte") && ends_here (drop 7 (c ∷ s))) || names_svelte s

abbrev pub completed : Kind → Message → Bool → Chat → Bool × (Chat × List Effect)
completed is_done msg focuses t =
    let (t', effects) =
      unlock_steer_chat
        (record { error = []; restore_message = []; message = msg.message; file = msg.file })
        focuses t in
    (true, (t', effects ++ (if names_svelte msg.file then reload_timer ∷ [] else [])))
completed is_error msg focuses t = (
  true,
  unlock_steer_chat
      (record {
        error = or_text msg.message (codes "Steer failed");
        restore_message = t.pending;
        message = [];
        file = [];
      })
      focuses t,
)
completed is_other msg focuses t = (false, (t, []))

-- `maybeCompleteSteer`
unfoldable pub maybe_complete_steer : Message → Bool → Chat → Bool × (Chat × List Effect)
maybe_complete_steer msg focuses t =
    if not (is_request t.request msg.id) then (false, (t, [])) else completed msg.kind msg focuses t

-- The callback of the timer behind a change of a component.
unfoldable pub reload_due : Chat → Chat × List Effect
reload_due t = (
  t,
  if not t.locked
      then toast (codes "Steer applied. Reload if the page has not refreshed yet.") ∷ []
      else [],
)
