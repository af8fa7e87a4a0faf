-- ===== src/Steer/Tests.antt =====
-- Steers at inputs.
use nafir.Base.{◌≡◌, ◌++◌, true, false, some, List, [], ◌∷◌, refl, codes, trim, is_empty}
use nafir.Steer.{initial, submit_steer_message, unlock_steer_chat, steer_posted, steer_timed_out}
use nafir.Steer.Input.{type_text, sync_page_chat_visual}
use nafir.Steer.Run.{Event, enter, posted, timed_out, typed, step, run}
use nafir.Steer.Settled.{run-settles}
use nafir.Steer.Settled.Effects.{steered, settled, ids}
use nafir.Steer.Restored.{IsRestored, steer_timed_out-IsRestored}
use nafir.Steer.Restored.Outlives.{Outlives, step-Outlives}

-- A steer is sent, times out, and is sent again.
abbrev again : List Event
again =
    typed (codes " Go ") false
    ∷ enter (codes "a")
    ∷ timed_out true false true
    ∷ enter (codes "b")
    ∷ []

sent_again : (run again initial).0.request ≡ some (codes "b")
unfolding run step type_text sync_page_chat_visual submit_steer_message steer_timed_out
    unlock_steer_chat trim
sent_again = refl

-- The answer to the first post comes late, and was a failure: the second steer is unlocked, and its
-- text is still the one of the first.
late_answer :
    (run (again ++ posted (codes "a") (codes "Go") false true ∷ []) initial).0.locked ≡ false
unfolding run step type_text sync_page_chat_visual submit_steer_message steer_timed_out
    unlock_steer_chat trim steer_posted
late_answer = refl

run-settles_example :
    steered (run again initial).1
    ≡ settled (run again initial).1 ++ ids (run again initial).0.request
run-settles_example = run-settles again

steer_timed_out-IsRestored_example :
    IsRestored
      (steer_timed_out true true false (run again initial).0).0
      (run again initial).0.pending
    × (is_empty (run again initial).0.pending ≡ false)
unfolding run step type_text sync_page_chat_visual submit_steer_message steer_timed_out
    unlock_steer_chat trim
steer_timed_out-IsRestored_example = steer_timed_out-IsRestored again true true false refl

step-Outlives_example :
    Outlives
      (run again initial).0
      false
      (step (posted (codes "b") (codes "Go") false true) (run again initial).0)
unfolding run step type_text sync_page_chat_visual submit_steer_message steer_timed_out
    unlock_steer_chat trim
step-Outlives_example = step-Outlives again (posted (codes "b") (codes "Go") false true) refl refl
