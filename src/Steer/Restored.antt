-- ===== src/Steer/Restored.antt =====
-- The text of a steer that gets no answer stands in the input again.
pub mod Outlives
use nafir.Base.{
  ◌≡◌, Bool, true, false, not, ◌&&◌, ◌||◌, Option, none, some, List, [], ◌∷◌, ◌++◌, if◌then◌else◌,
  Text, codes, is_empty, text_eq, text_eq_iff, text_eq_refl, trim, arith, refl, ap, sym, ◌∙◌,
  branch, branch_by, branch_true, branch_false, Bool-cases, inl, inr, ◌⊎◌,
}
use mathlib.Core.Path.{subst}
use nafir.Steer.{
  checkpoint, steer_input_focused, steer_submitted, Chat, Effect, Outcome, Message, Kind, is_done,
  is_error, is_other, initial, or_text, keeps_expanded, unlock_steer_chat, submit_steer_message,
  steer_posted, steer_timed_out, steer_timeout_message, due, is_request, completed,
  maybe_complete_steer, reload_due,
}
use nafir.Steer.Input.{
  click_send, send_enabled, type_text, escape, blurred, arm_page_chat_for_typing,
}
use nafir.Steer.Run.{
  Event, enter, click, posted, timed_out, message, reload, typed, escaped, blur, armed, focus, step,
  run,
}
use nafir.Steer.Settled.{run-IsSound}
use nafir.Steer.Settled.Effects.{IsSound, IsIdle, IsWaiting}

-- The chat is open again, and its input has the text.
pub record IsRestored (u : Chat) (text : Text) : Type 0 where
  pub unlocked : u.locked ≡ false
  pub opened : u.expanded ≡ true
  pub in_input : u.value ≡ text

pub unlock-IsRestored :
    (o : Outcome) (focuses : Bool) (t : Chat)
    → is_empty o.error ≡ false
    → is_empty o.restore_message ≡ false
    → IsRestored (unlock_steer_chat o focuses t).0 o.restore_message
unfolding unlock_steer_chat
unlock-IsRestored o focuses t error restore = record {
  unlocked = refl;
  opened = ground (arith, error, restore);
  in_input =
      branch_true (λ (l : Text). l ≡ o.restore_message) (keeps_expanded o) []
        (ground (arith, error, restore)) refl;
}

-- What the timer of a request does while the chat waits for it.
due-IsRestored :
    (polling working focuses : Bool) (t : Chat) (r : Option Text) (id : Text)
    → t.locked ≡ true
    → t.request ≡ some id
    → r ≡ some id
    → is_empty t.pending ≡ false
    → IsRestored (due polling working focuses t r).0 t.pending
due-IsRestored polling working focuses t r id locked request timer text =
    subst (λ (q : Option Text). IsRestored (due polling working focuses t q).0 t.pending)
      (sym timer)
      (branch_false (λ (u : Chat × List Effect). IsRestored u.0 t.pending)
        (not t.locked || not (is_request t.request id)) (t, [])
        (ground (arith, locked, ap (λ (q : Option Text). is_request q id) request, text_eq_refl id))
        (unlock-IsRestored
          (record {
            error = steer_timeout_message polling working t;
            restore_message = t.pending;
            message = [];
            file = [];
          })
          focuses t refl text))

-- Whatever happened since the page was loaded, a chat that is locked has a timer; when it fires,
-- the chat is open again, with the text of the steer in its input.
pub steer_timed_out-IsRestored :
    (es : List Event) (polling working focuses : Bool)
    → (run es initial).0.locked ≡ true
    → IsRestored
        (steer_timed_out polling working focuses (run es initial).0).0
        (run es initial).0.pending
      × (is_empty (run es initial).0.pending ≡ false)
unfolding steer_timed_out
steer_timed_out-IsRestored es polling working focuses locked =
    let t = (run es initial).0 in
    elim (run-IsSound es) [
      | inl idle ↦ cc (idle.unlocked, locked)
      | inr waiting ↦ (
        due-IsRestored polling working focuses t t.timer waiting.id locked waiting.its_request
            waiting.its_timer waiting.some_text,
        waiting.some_text,
      )
    ]
