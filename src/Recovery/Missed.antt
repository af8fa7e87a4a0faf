-- ===== src/Recovery/Missed.antt =====
-- `recoverMissedGenerationCompletion`: a page that was reloading when its generation completed
-- takes the variants from the source.
pub mod Late
use nafir.Base.{
  ℕ, ◌≡◌, Bool, true, false, not, ◌&&◌, ◌||◌, Option, none, some, List, [], ◌∷◌, if◌then◌else◌, leb,
  ltb, find?, Text, codes, text_eq, is_empty, arith, refl, find?-eq-some, Bool-cases, Option-cases,
  inl, inr,
}
use nafir.Value.{Value, str, property, truthy}
use nafir.Recovery.Summary.{or_else, same_option, is_terminal_session_summary}
use nafir.Recovery.Meta.{Meta, remember_session_file_meta, is_framework_component_preview_mode}

-- The variables that are read; `session` is `currentSessionId`, empty for null, and `generating`
-- the test `state === 'GENERATING'`.
pub record Progress : Type 0 where
  pub session : Text
  pub generating : Bool
  pub arrived : ℕ
  pub expected : ℕ
  pub files : Meta

-- `arrivedVariants > 0 && arrivedVariants >= expectedVariants`
abbrev pub is_complete : Progress → Bool
is_complete s = ltb 0 s.arrived && leb s.expected s.arrived

abbrev pub text_value : Option Text → Option Value
text_value none = none
text_value (some t) = some (str t)

-- The `file` to take the variants from.
pub recovery_file : Meta → Value → Option Value
recovery_file m summary =
    if is_framework_component_preview_mode m.preview_mode
    then text_value m.preview_file
    else or_else (property (codes "sourceFile") summary) (
        or_else (property (codes "previewFile") summary)
          (or_else (text_value m.source_file) (text_value m.preview_file)))

abbrev pub is_session : Text → Value → Bool
is_session id session = same_option (property (codes "id") session) (some (str id))

-- The summary asks for a recovery: completed, not canceled and not terminal.
pub is_completed : Value → Bool
is_completed summary =
    truthy (property (codes "generationCompletedAt") summary)
    && not (truthy (property (codes "generationCanceled") summary))
    && not (is_terminal_session_summary summary)

-- A timer of 750 ms for the session and the file, if there is one.
pub later : Text → Option Value → Option (Text × Value)
later id none = none
later id (some file) = if truthy (some file) then some (id, file) else none

pub on_summary : Progress → Option Value → Progress × Option (Text × Value)
unfolding recovery_file is_completed later
on_summary s none = (s, none)
on_summary s (some summary) =
    let files = remember_session_file_meta summary s.files in
    if is_completed summary && not (is_complete s)
    then (record s { files = files }, later s.session (recovery_file files summary))
    else (s, none)

-- What is done on a connection: the files that the summary names are remembered, and a timer set.
unfoldable pub recover_missed_generation_completion :
    Progress → Option (List Value) → Progress × Option (Text × Value)
unfolding on_summary
recover_missed_generation_completion s none = (s, none)
recover_missed_generation_completion s (some sessions) =
    if not (is_empty s.session) && s.generating
    then on_summary s (find? (is_session s.session) sessions)
    else (s, none)

-- The callback of the timer: the session and the file of an injection, if it still has to be made.
unfoldable pub recovery_due : Progress → Text × Value → Option (Text × Value)
recovery_due s (id, file) =
    if not (text_eq id s.session) || not s.generating
    then none
    else if is_complete s
    then none
    else some (id, file)
