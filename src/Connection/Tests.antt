-- ===== src/Connection/Tests.antt =====
-- The laws of the gate at inputs, and a test of two creations at once.
use nafir.Base.{◌≡◌, ◌≤◌, List, [], ◌∷◌, ◌++◌, refl, codes, ◌==◌}
use nafir.Connection.{
  Message, generate, steer, checkpoint, opened, turn_ended, creation, answer, progress,
}
use nafir.Connection.Gate.{
  Event, sent, settles, turn, run, IsOrdered, behind_gates, creations_of, posted_creations, count,
  posted, run-IsOrdered, run-turn-count,
}

abbrev go : Message
go = record { kind = generate; id = codes "s1" }

abbrev saved : Message
saved = record { kind = checkpoint; id = codes "s1" }

abbrev chat : Message
chat = record { kind = steer; id = codes "c1" }

-- Go, a checkpoint while the helper has not answered, and its answer.
abbrev answered : List Event
answered = sent go ∷ sent saved ∷ turn ∷ settles 1 ∷ []

abbrev all_run : List Event
all_run = sent go ∷ sent saved ∷ turn ∷ settles 1 ∷ turn ∷ []

run-IsOrdered_example :
    (posted_creations (run all_run opened).1 ≡ creations_of 0 all_run)
    × (count (λ w. w.gate == 1) (posted (run all_run opened).1)
        ≤ count (λ w. w.gate == 1) (behind_gates 0 all_run))
    × IsOrdered [] (run all_run opened).1
run-IsOrdered_example = run-IsOrdered (λ w. w.gate == 1) all_run

run-turn-count_example :
    (posted_creations ((run answered opened).1 ++ (turn_ended (run answered opened).0).1)
      ≡ creations_of 0 answered)
    × (count
          (λ w. w.gate == 1)
          (posted ((run answered opened).1 ++ (turn_ended (run answered opened).0).1))
        ≡ count (λ w. w.gate == 1) (behind_gates 0 answered))
unfolding run
run-turn-count_example = run-turn-count (λ w. w.gate == 1) answered refl

-- A message to the chat while Go is not answered moves the gate: its answer lets the checkpoint of
-- the session through, before the answer to Go.
overtaken :
    (run (sent go ∷ sent chat ∷ sent saved ∷ settles 2 ∷ turn ∷ []) opened).1
    ≡ creation 1 go
      ∷ creation 2 chat
      ∷ answer 2
      ∷ progress (record { gate = 2; message = saved })
      ∷ []
unfolding run
overtaken = refl
