-- ===== src/Steer/Run.antt =====
-- What happens to the chat, in any order, and the runs of it.
use nafir.Base.{Bool, List, [], ◌∷◌, ◌++◌, Text}
use nafir.Steer.{
  Chat, Effect, Message, submit_steer_message, steer_posted, steer_timed_out, maybe_complete_steer,
  reload_due,
}
use nafir.Steer.Input.{
  click_send, type_text, escape, blurred, arm_page_chat_for_typing, focus_input,
}

-- The key Enter, the button, the answer to a post, the timer of a request, a message of the helper,
-- the timer behind a change of a component, and what the user does with the input.
pub data Event : Type 0 where
  enter : Text → Event
  click : Text → Bool → Event
  posted : Text → Text → Bool → Bool → Event
  timed_out : Bool → Bool → Bool → Event
  message : Message → Bool → Event
  reload : Event
  typed : Text → Bool → Event
  escaped : Bool → Event
  blur : Bool → Bool → Bool → Event
  armed : Bool → Bool → Bool → Event
  focus : Event

unfoldable pub step : Event → Chat → Chat × List Effect
step (enter id) t = submit_steer_message id t
step (click id focused) t = click_send id focused t
step (posted id text taken focuses) t = steer_posted id text taken focuses t
step (timed_out polling working focuses) t = steer_timed_out polling working focuses t
step (message msg focuses) t = (maybe_complete_steer msg focuses t).1
step reload t = reload_due t
step (typed text listening) t = (type_text text listening t, [])
step (escaped listening) t = (escape listening t, [])
step (blur elsewhere listening inside) t = (blurred elsewhere listening inside t, [])
step (armed expand takes_focus focused) t =
    (arm_page_chat_for_typing expand takes_focus focused t, [])
step focus t = (focus_input t, [])

unfoldable pub run : List Event → Chat → Chat × List Effect
run [] t = (t, [])
run (e ∷ es) t =
    let (t', effects) = step e t in let (t'', more) = run es t' in (t'', effects ++ more)
