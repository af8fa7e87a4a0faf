-- ===== src/Phase/Tests.antt =====
-- The order of the phases at an input, and tests.
use nafir.Base.{◌≡◌, some, [], ◌∷◌, codes, refl}
use nafir.Phase.{rank, receive_all, generation_status_text}
use nafir.Phase.Monotone.{rank-receive_all}

-- A phase with no rank is always let through, and a lower one behind it then too.
unranked_between :
    receive_all
      (some (codes "second_reviewable"))
      (some (codes "paused") ∷ some (codes "picked_up") ∷ [])
    ≡ some (codes "picked_up")
unfolding receive_all rank
unranked_between = refl

status_test : generation_status_text 0 3 (some (codes "queued")) ≡ codes "Generating 3 variants..."
unfolding generation_status_text nafir.Value.decimal
status_test = refl

rank-receive_all_example :
    rank (
      receive_all (some (codes "queued")) (
        some (codes "source_ready")
        ∷ some (codes "first_reviewable")
        ∷ some (codes "generating")
        ∷ []))
    ≡ some 8
unfolding rank
rank-receive_all_example =
    rank-receive_all (some (codes "queued")) 0
      ((some (codes "source_ready"), 4)
        ∷ (some (codes "first_reviewable"), 8)
        ∷ (some (codes "generating"), 5)
        ∷ [])
      refl (refl, (refl, (refl, tt)))
