-- ===== src/Steer/Settled.antt =====
-- Each steer that is sent gets one outcome.
pub mod Effects
mod Unmoved
use nafir.Base.{
  ◌≡◌, Bool, true, false, not, ◌&&◌, ◌||◌, Option, none, some, List, [], ◌∷◌, ◌++◌, if◌then◌else◌,
  Text, is_empty, trim, codes, arith, refl, ap, sym, ◌∙◌, append-nil, append_assoc, branch,
  branch_by, branch_false, Bool-cases, inl, inr, ◌⊎◌,
}
use mathlib.Core.Path.{subst}
use nafir.Steer.{
  Chat, Effect, Reason, Outcome, Message, Kind, is_done, is_error, is_other, steer, checkpoint,
  toast, reload_timer, steer_input_focused, steer_submitted, steer_done, steer_error, initial,
  toasts_of, outcome_checkpoint, unlock_steer_chat, submit_steer_message, steer_posted,
  steer_timed_out, due, is_request, names_svelte, completed, maybe_complete_steer, reload_due,
}
use nafir.Steer.Input.{
  click_send, send_enabled, type_text, escape, blurred, arm_page_chat_for_typing,
  sync_page_chat_visual,
}
use nafir.Steer.Run.{
  Event, enter, click, posted, timed_out, message, reload, typed, escaped, blur, armed, focus, step,
  run,
}
use nafir.Steer.Settled.Effects.{
  IsIdle, IsSound, IsWaiting, Keeps, done_of, ids, outcome-settled, outcome-steered, quiet-Keeps,
  settled, settled-append, steered, steered-append, toasts_of-settled, toasts_of-steered,
  unlock-Keeps, unlock-Keeps_all,
}
use nafir.Steer.Settled.Unmoved.{
  Same, armed-Same, blurred-Same, escape-Same, expanded-Same, typed-Same, visual-Same,
}

-- An unlocked chat waits for nothing.
unlocked-ids : (t : Chat) → IsSound t → t.locked ≡ false → ids t.request ≡ []
unlocked-ids t (inl idle) h = ap ids idle.no_request
unlocked-ids t (inr waiting) h = cc (waiting.is_locked, h)

submit-Keeps : (id : Text) (t : Chat) → IsSound t → Keeps t (submit_steer_message id t)
unfolding submit_steer_message
submit-Keeps id t h =
    branch_by (Keeps t) (is_empty (trim t.value) || t.locked)
      (λ refused. quiet-Keeps t [] refl refl h)
      (λ taken. (
        inr (record {
          id = id;
          is_locked = refl;
          its_request = refl;
          its_timer = refl;
          some_text = ground (arith, taken);
        }),
        ap (λ (l : List Text). l ++ id ∷ []) (unlocked-ids t h (ground (arith, taken))),
      ))

click-Keeps :
    (id : Text) (focused : Bool) (t : Chat) → IsSound t → Keeps t (click_send id focused t)
unfolding click_send
click-Keeps id focused t h =
    branch (Keeps t) (t.locked || not (send_enabled focused t)) (quiet-Keeps t [] refl refl h)
      (submit-Keeps id t h)

posted-Keeps :
    (id text : Text) (taken focuses : Bool) (t : Chat)
    → IsSound t
    → Keeps t (steer_posted id text taken focuses t)
unfolding steer_posted
posted-Keeps id text taken focuses t h =
    branch (Keeps t) (not taken) (unlock-Keeps_all _ focuses t) (
      branch (λ (es : List Effect). Keeps t (t, es ++ checkpoint id (steer_submitted text) ∷ []))
        t.was_focused
        (quiet-Keeps t
          (checkpoint id steer_input_focused ∷ checkpoint id (steer_submitted text) ∷ []) refl refl
          h)
        (quiet-Keeps t (checkpoint id (steer_submitted text) ∷ []) refl refl h))

due-Keeps :
    (polling working focuses : Bool) (t : Chat) (r : Option Text)
    → IsSound t
    → Keeps t (due polling working focuses t r)
due-Keeps polling working focuses t none h = quiet-Keeps t [] refl refl h
due-Keeps polling working focuses t (some id) h =
    branch (Keeps t) (not t.locked || not (is_request t.request id)) (quiet-Keeps t [] refl refl h)
      (unlock-Keeps_all _ focuses t)

timeout-Keeps :
    (polling working focuses : Bool) (t : Chat)
    → IsSound t
    → Keeps t (steer_timed_out polling working focuses t)
unfolding steer_timed_out
timeout-Keeps polling working focuses t h = due-Keeps polling working focuses t t.timer h

completed-Keeps :
    (kind : Kind) (msg : Message) (focuses : Bool) (t : Chat)
    → IsSound t
    → Keeps t (completed kind msg focuses t).1
completed-Keeps is_done msg focuses t h =
    branch
      (λ (es : List Effect). Keeps t (
        (unlock_steer_chat (done_of msg) focuses t).0,
        (unlock_steer_chat (done_of msg) focuses t).1 ++ es,
      ))
      (names_svelte msg.file) (unlock-Keeps (done_of msg) focuses t (reload_timer ∷ []) refl refl)
      (unlock-Keeps (done_of msg) focuses t [] refl refl)
completed-Keeps is_error msg focuses t h = unlock-Keeps_all _ focuses t
completed-Keeps is_other msg focuses t h = quiet-Keeps t [] refl refl h

message-Keeps :
    (msg : Message) (focuses : Bool) (t : Chat)
    → IsSound t
    → Keeps t (maybe_complete_steer msg focuses t).1
unfolding maybe_complete_steer
message-Keeps msg focuses t h =
    branch (λ (r : Bool × (Chat × List Effect)). Keeps t r.1) (not (is_request t.request msg.id))
      (quiet-Keeps t [] refl refl h) (completed-Keeps msg.kind msg focuses t h)

reload-Keeps : (t : Chat) → IsSound t → Keeps t (reload_due t)
unfolding reload_due
reload-Keeps t h =
    branch (λ (es : List Effect). Keeps t (t, es)) (not t.locked)
      (quiet-Keeps t (toast (codes "Steer applied. Reload if the page has not refreshed yet.") ∷ [])
        refl refl h)
      (quiet-Keeps t [] refl refl h)

unmoved-Keeps : (t u : Chat) → Same t u → Keeps t (u, [])
unmoved-Keeps t u (h, same) = (h, append-nil (ids t.request) ∙ same)

step-Keeps : (e : Event) (t : Chat) → IsSound t → Keeps t (step e t)
unfolding step
step-Keeps (enter id) t h = submit-Keeps id t h
step-Keeps (click id focused) t h = click-Keeps id focused t h
step-Keeps (posted id text taken focuses) t h = posted-Keeps id text taken focuses t h
step-Keeps (timed_out polling working focuses) t h = timeout-Keeps polling working focuses t h
step-Keeps (message msg focuses) t h = message-Keeps msg focuses t h
step-Keeps reload t h = reload-Keeps t h
step-Keeps (typed text listening) t h =
    unmoved-Keeps t (type_text text listening t) (typed-Same text listening t (h, refl))
step-Keeps (escaped listening) t h =
    unmoved-Keeps t (escape listening t) (escape-Same listening t (h, refl))
step-Keeps (blur elsewhere listening inside) t h =
    unmoved-Keeps t (blurred elsewhere listening inside t)
      (blurred-Same elsewhere listening inside t (h, refl))
step-Keeps (armed expand takes_focus focused) t h =
    unmoved-Keeps t (arm_page_chat_for_typing expand takes_focus focused t)
      (armed-Same expand takes_focus focused t (h, refl))
step-Keeps focus t h = (h, append-nil (ids t.request))

run-Keeps : (es : List Event) (t : Chat) → IsSound t → Keeps t (run es t)
unfolding run
run-Keeps [] t h = quiet-Keeps t [] refl refl h
run-Keeps (e ∷ es) t h =
    let first = step-Keeps e t h in
    let t' = (step e t).0 in
    let now = (step e t).1 in
    let rest = run-Keeps es t' first.0 in
    let later = (run es t').1 in
    (
      rest.0,
      ap (λ (l : List Text). ids t.request ++ l) (steered-append now later)
          ∙ sym (append_assoc (ids t.request) (steered now) (steered later))
          ∙ ap (λ (l : List Text). l ++ steered later) first.1
          ∙ append_assoc (settled now) (ids t'.request) (steered later)
          ∙ ap (λ (l : List Text). settled now ++ l) rest.1
          ∙ sym (append_assoc (settled now) (settled later) (ids (run es t').0.request))
          ∙ ap (λ (l : List Text). l ++ ids (run es t').0.request) (sym (settled-append now later)),
    )

-- In any run from a fresh page, the steers that are posted are, in their order, those that have an
-- outcome reported, each one once, and then the one that the chat waits for, if it is locked.
pub run-settles :
    (es : List Event)
    → steered (run es initial).1 ≡ settled (run es initial).1 ++ ids (run es initial).0.request
run-settles es =
    (run-Keeps es initial (inl (record { unlocked = refl; no_request = refl; no_timer = refl }))).1

-- In any run from a fresh page, the chat is idle, or waits for a request with its text.
pub run-IsSound : (es : List Event) → IsSound (run es initial).0
run-IsSound es =
    (run-Keeps es initial (inl (record { unlocked = refl; no_request = refl; no_timer = refl }))).0
