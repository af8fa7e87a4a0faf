-- ===== src/Phase.antt =====
-- The phase of a generation that the progress bar shows: `PHASE_RANK`, `shouldAdvancePhase`, the
-- `agent_phase` case of the event handler and `generationStatusText` of live-browser.js.
pub mod Monotone
mod Tests
use nafir.Base.{
  ℕ, ◌≡◌, Bool, true, false, ◌&&◌, Option, none, some, List, [], ◌∷◌, ◌++◌, if◌then◌else◌, ltb, leb,
  Text, codes, text_eq, is_empty,
}
use nafir.Value.{decimal}

-- `PHASE_RANK`
abbrev pub phase_rank : List (Text × ℕ)
phase_rank =
    (codes "queued", 0)
    ∷ (codes "picked_up", 1)
    ∷ (codes "scaffolding", 2)
    ∷ (codes "scaffold_fallback", 3)
    ∷ (codes "source_ready", 4)
    ∷ (codes "generation_ready", 5)
    ∷ (codes "generating", 5)
    ∷ (codes "variants_progress", 5)
    ∷ (codes "first_reviewable", 8)
    ∷ (codes "second_reviewable", 11)
    ∷ (codes "all_variants_ready", 12)
    ∷ (codes "variants_ready", 12)
    ∷ []

lookup : Text → List (Text × ℕ) → Option ℕ
lookup k [] = none
lookup k ((j, r) ∷ rest) = if text_eq j k then some r else lookup k rest

-- The rank of a phase; `null` and a phase with no entry have none. A phase that is the name of a
-- property which every object inherits is not modelled.
unfoldable pub rank : Option Text → Option ℕ
unfolding lookup
rank none = none
rank (some phase) = lookup phase phase_rank

-- The last two lines: only a lower known phase is held back.
pub not_behind : Option ℕ → Option ℕ → Bool
not_behind (some next) (some current) = leb current next
not_behind _ _ = true

-- `next === current`
pub is_phase : Text → Option Text → Bool
is_phase next none = false
is_phase next (some current) = text_eq next current

-- `current` is `null` before the first generation. An empty phase is falsy, as a missing one is.
unfoldable pub should_advance_phase : Option Text → Option Text → Bool
unfolding not_behind is_phase
should_advance_phase current none = false
should_advance_phase current (some next) =
    if is_empty next
    then false
    else if is_phase next current
    then false
    else not_behind (rank (some next)) (rank current)

-- What an `agent_phase` message of the current session does to `generationPhase`.
unfoldable pub receive : Option Text → Option Text → Option Text
unfolding should_advance_phase
receive current phase = if should_advance_phase current phase then phase else current

unfoldable pub receive_all : Option Text → List (Option Text) → Option Text
unfolding receive
receive_all current [] = current
receive_all current (phase ∷ phases) = receive_all (receive current phase) phases

-- The line of the bar for a phase, `none` for the count of variants.
phase_text : Option Text → Option Text
phase_text none = none
phase_text (some phase) =
    if text_eq phase (codes "picked_up")
    then some (codes "Agent picked up the request...")
    else if text_eq phase (codes "scaffolding")
    then some (codes "Finding the source...")
    else if text_eq phase (codes "source_ready")
    then some (codes "Source ready. Generating...")
    else if text_eq phase (codes "scaffold_fallback")
    then some (codes "Agent is locating the source...")
    else if text_eq phase (codes "first_reviewable")
    then some (codes "First variant is ready. Exploring more...")
    else if text_eq phase (codes "second_reviewable")
    then some (codes "Checking the remaining variants...")
    else none

unfoldable pub generation_status_text : ℕ → ℕ → Option Text → Text
unfolding phase_text
generation_status_text arrived expected phase =
    if leb expected arrived && ltb 0 expected then codes "Done" else elim (phase_text phase) [
      | some line ↦ line
      | none ↦ codes "Generating " ++ decimal expected ++ codes " variants..."
    ]
