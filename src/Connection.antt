-- ===== src/Connection.antt =====
-- What a tab posts to the helper, live-browser.js: `sendEvent` with its gate, and the checkpoints
-- (`checkpointPayload` to `queueCheckpoint`).
pub mod Gate
mod Tests
use nafir.Base.{
  ℕ, ◌+◌, Bool, true, false, not, ◌&&◌, ◌||◌, ◌==◌, Option, none, some, List, [], ◌∷◌, ◌++◌, any,
  filter, if◌then◌else◌, Text, codes, is_empty, text_eq,
}
use nafir.Target.Tab.{LiveState}
use nafir.Recovery.Meta.{Meta}
use nafir.Comparison.{Live, is_current}

-- `msg.type`, as far as `sendEvent` asks for it.
pub data Kind : Type 0 where
  generate steer checkpoint other : Kind

pub record Message : Type 0 where
  pub kind : Kind
  pub id : Text

-- A message that waits for the creation with this number; 0 is the promise that is resolved from
-- the beginning.
pub record Waiting : Type 0 where
  pub gate : ℕ
  pub message : Message

-- `sessionCreationGate` is the promise of the last of the `created` creations; `settled` are the
-- creations that are answered, and `waiting` what was to be sent behind a gate, in its order.
pub record Channel : Type 0 where
  pub created : ℕ
  pub settled : List ℕ
  pub waiting : List Waiting

abbrev pub opened : Channel
opened = record { created = 0; settled = []; waiting = [] }

-- What happens on the wire: a creation with its number is posted, an answer to it comes, and a
-- message that waited is posted.
pub data Wire : Type 0 where
  creation : ℕ → Message → Wire
  answer : ℕ → Wire
  progress : Waiting → Wire

-- `msg.type === 'generate' || msg.type === 'steer'`
abbrev pub creates : Kind → Bool
creates generate = true
creates steer = true
creates _ = false

-- `sendEvent`
unfoldable pub send_event : Message → Channel → Channel × List Wire
send_event m c =
    if creates m.kind
    then (record c { created = c.created + 1 }, creation (c.created + 1) m ∷ [])
    else (record c { waiting = c.waiting ++ record { gate = c.created; message = m } ∷ [] }, [])

-- The promise of a creation settles, with an answer or without one.
unfoldable pub creation_settled : ℕ → Channel → Channel × List Wire
creation_settled n c = (record c { settled = n ∷ c.settled }, answer n ∷ [])

-- The gate is open.
abbrev pub is_open : List ℕ → Waiting → Bool
is_open settled w = (w.gate == 0) || any (λ n. w.gate == n) settled

abbrev pub posts : List Waiting → List Wire
posts [] = []
posts (w ∷ ws) = progress w ∷ posts ws

-- The continuations that run at the end of a turn: what waits behind an open gate is sent.
unfoldable pub turn_ended : Channel → Channel × List Wire
turn_ended c = (
  record c { waiting = filter (λ w. not (is_open c.settled w)) c.waiting },
  posts (filter (is_open c.settled) c.waiting),
)

-- The answer to one request: taken, refused with the text of an error, or none.
pub data Response : Type 0 where
  taken : Response
  refused : Text → Response
  unreachable : Response

-- What `sendEvent` makes of it.
pub data Outcome : Type 0 where
  delivered dropped thrown : Outcome
  superseded foreign : Text → Outcome

abbrev pub is_generate : Kind → Bool
is_generate generate = true
is_generate _ = false

abbrev pub is_checkpoint : Kind → Bool
is_checkpoint checkpoint = true
is_checkpoint _ = false

-- `handleFailure`
abbrev pub handle_failure : Bool → Outcome
handle_failure throw_on_error = if throw_on_error then thrown else dropped

-- `doSend` in `sendEvent`, for the tab as it is when the answer comes
pub outcome : Bool → Live → Message → Response → Outcome
outcome throw_on_error t m taken = delivered
outcome throw_on_error t m unreachable = handle_failure throw_on_error
outcome throw_on_error t m (refused error) =
    if text_eq error (codes "agent_target_already_served")
      && is_generate m.kind
      && is_current t m.id
    then superseded m.id
    else if text_eq error (codes "unknown_session") && is_checkpoint m.kind && is_current t m.id
    then foreign m.id
    else handle_failure throw_on_error

-- What a checkpoint says, but for the owner, the page and the values of the parameters.
pub record Checkpoint : Type 0 where
  pub id : Text
  pub revision : ℕ
  pub phase : LiveState
  pub reason : Text
  pub expected : ℕ
  pub arrived : ℕ
  pub visible : ℕ
  pub files : Meta

-- `checkpointPayload`, with the revision that `nextCheckpointRevision` gives
abbrev pub checkpoint_payload : ℕ → Text → Live → Checkpoint
checkpoint_payload revision reason t = record {
  id = t.session;
  revision = revision;
  phase = t.state;
  reason = reason;
  expected = t.expected;
  arrived = t.arrived;
  visible = t.visible;
  files = t.files;
}

-- `sendCheckpoint`
pub send_checkpoint : Live → Channel → Channel × List Wire
unfolding send_event
send_checkpoint t c =
    if is_empty t.session
    then (c, [])
    else send_event (record { kind = checkpoint; id = t.session }) c

-- `queueCheckpoint`: the reason of the timer that is set, `none` if none is.
pub queue_checkpoint : Text → Live → Option Text → Option Text
queue_checkpoint reason t timer = if is_empty t.session then timer else some reason
