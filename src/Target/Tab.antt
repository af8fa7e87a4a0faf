-- ===== src/Target/Tab.antt =====
-- The handlers of an agent target in one tab. Each takes the state of the tab and gives the state
-- that it leaves and what it sends or schedules, in order; the answers of the server, the timers
-- and the end of a scroll come back as events (Target/Tab/Events).
pub mod Events
use nafir.Base.{
  ℕ, zero, suc, Bool, true, false, not, ◌&&◌, ◌||◌, Option, none, some, List, [], ◌∷◌, ◌++◌, map,
  if◌then◌else◌, length, drop, any, ltb, Text, text_eq,
}
use nafir.Target.Resolve.{
  Element, Page, Message, Description, describe_agent_target_candidate, Miss, Resolution, found,
  missed, resolve_agent_target_element,
}

pub data LiveState : Type 0 where
  idle picking configuring generating cycling confirmed editing saving : LiveState

-- This page's word on a target that it heard.
pub data Status : Type 0 where
  heard acting done declined denied : Status

pub data Reason : Type 0 where
  manual_apply_in_flight session_active agent_target_in_flight : Reason

-- The variables of live-browser.js that the handlers read and write: `connected` is `!!evtSource`,
-- `seen` is `agentTargetsSeen` and `waiting` is `busyDeclinedTargets`.
pub record Tab : Type 0 where
  pub state : LiveState
  pub insert_active : Bool
  pub configures_insert : Bool
  pub pending_apply_in_flight : Bool
  pub connected : Bool
  pub seen : List (Text × Status)
  pub waiting : List (Text × Message)

-- `ask` is the first claim and `renew` the one before Go; both are sent with `eligible: true`.
pub data Effect : Type 0 where
  ask : Message → Effect
  renew : Message → Element → ℕ → Effect
  report_busy : Message → LiveState → Reason → Effect
  report_miss : Message → LiveState → Miss → Effect
  claim_after : ℕ → Message → Effect
  watch_after : ℕ → Message → Miss → Effect
  scroll : Message → Element → ℕ → Effect
  dry_result : Message → ℕ → Description → Effect
  go : Message → ℕ → Description → Effect
  go_failed : Message → LiveState → Effect

-- `Map.prototype.set`: the keys of a `Map` are distinct, and an old key keeps its place.
module _ {A : Type 0} where
  pub has : Text → List (Text × A) → Bool
  has k = any (λ e. text_eq e.0 k)

  pub overwrite : Text → A → Text × A → Text × A
  overwrite k v (j, w) = if text_eq j k then (k, v) else (j, w)

  pub set : Text → A → List (Text × A) → List (Text × A)
  unfolding has overwrite
  set k v entries = if has k entries then map (overwrite k v) entries else entries ++ (k, v) ∷ []

unfoldable pub status_of : Text → List (Text × Status) → Option Status
status_of k [] = none
status_of k ((j, s) ∷ rest) = if text_eq j k then some s else status_of k rest

abbrev pub is_acting : Status → Bool
is_acting acting = true
is_acting _ = false

abbrev pub is_taken : Option Status → Bool
is_taken (some acting) = true
is_taken (some done) = true
is_taken _ = false

-- The ledger holds a hundred targets; the oldest goes first.
abbrev pub trim_ledger : List (Text × Status) → List (Text × Status)
trim_ledger entries = if ltb 100 (length entries) then drop 1 entries else entries

pub note_agent_target : Tab → Text → Status → Tab
unfolding set
note_agent_target t id status = record t { seen = trim_ledger (set id status t.seen) }

pub agent_target_taken : Tab → Text → Bool
unfolding status_of
agent_target_taken t id = is_taken (status_of id t.seen)

abbrev pub is_selectable : LiveState → Bool
is_selectable idle = true
is_selectable picking = true
is_selectable configuring = true
is_selectable _ = false

abbrev pub is_other : Option Text → Text → Bool
is_other none id = true
is_other (some except) id = not (text_eq id except)

unfoldable pub other_acting : Option Text → List (Text × Status) → Bool
other_acting except = any (λ e. is_acting e.1 && is_other except e.0)

unfoldable pub agent_target_busy_reason : Tab → Option Text → Option Reason
unfolding other_acting
agent_target_busy_reason t except =
    if t.pending_apply_in_flight
    then some manual_apply_in_flight
    else if not (is_selectable t.state)
    then some session_active
    else if other_acting except t.seen
    then some agent_target_in_flight
    else none

pub decline_agent_target_busy : Tab → Message → Reason → Tab × List Effect
unfolding note_agent_target set
decline_agent_target_busy t msg busy = (
  note_agent_target (record t { waiting = set msg.target_id msg t.waiting }) msg.target_id declined,
  report_busy msg t.state busy ∷ [],
)

pub report_agent_target_unresolvable : Tab → Message → Miss → Tab × List Effect
unfolding note_agent_target
report_agent_target_unresolvable t msg miss =
    (note_agent_target t msg.target_id declined, report_miss msg t.state miss ∷ [])

-- A body that a busy tab does not reach: it declines, and waits.
pub unless_busy : Tab → Message → (Tab × List Effect) → Option Reason → Tab × List Effect
unfolding decline_agent_target_busy
unless_busy t msg free none = free
unless_busy t msg free (some busy) = decline_agent_target_busy t msg busy

-- A body that needs the element: a page without it reports that.
pub with_element :
    Tab → Message → (Element → ℕ → Tab × List Effect) → Resolution → Tab × List Effect
unfolding report_agent_target_unresolvable
with_element t msg body (found el n) = body el n
with_element t msg body (missed miss) = report_agent_target_unresolvable t msg miss

-- The two guards together, in the order that all handlers ask them.
unfoldable pub guarded :
    Page → Tab → Message → (Element → ℕ → Tab × List Effect) → Tab × List Effect
unfolding unless_busy with_element
guarded page t msg body =
    unless_busy t msg (with_element t msg body (resolve_agent_target_element page msg))
      (agent_target_busy_reason t (some msg.target_id))

pub claim_and_act_on_agent_target : Page → Tab → Message → Tab × List Effect
unfolding guarded
claim_and_act_on_agent_target page t msg =
    if t.connected then guarded page t msg (λ el n. (t, ask msg ∷ [])) else (t, [])

pub act_on_element : Page → Tab → Message → Element → ℕ → Tab × List Effect
unfolding note_agent_target
act_on_element page t msg el n =
    if msg.dry_run
    then (
      note_agent_target t msg.target_id done,
      dry_result msg n (describe_agent_target_candidate page el) ∷ [],
    )
    else (t, scroll msg el n ∷ [])

pub act_on_agent_target : Page → Tab → Message → Tab × List Effect
unfolding guarded act_on_element
act_on_agent_target page t msg =
    if t.connected then guarded page t msg (act_on_element page t msg) else (t, [])

-- `handleAgentTarget` behind the test of the message; a hidden tab gives the others a head start.
pub hear : Page → Bool → Tab → Message → Tab × List Effect
unfolding guarded note_agent_target agent_target_taken
hear page hidden t msg =
    if agent_target_taken t msg.target_id
    then (t, [])
    else (let t' : Tab = note_agent_target t msg.target_id heard in
        guarded page t' msg (λ el n. (t', claim_after (if hidden then 150 else 0) msg ∷ [])))

pub handle_agent_target : Page → Bool → Tab → Option Message → Tab × List Effect
unfolding hear
handle_agent_target page hidden t none = (t, [])
handle_agent_target page hidden t (some msg) = hear page hidden t msg

-- One round of the loop of `retryDeclinedAgentTargets`, and the rounds behind it: it takes the
-- first target that waits.
pub retry_round : (Tab → Tab × List Effect) → Page → Tab → List (Text × Message) → Tab × List Effect
unfolding claim_and_act_on_agent_target
retry_round rounds page t [] = (t, [])
retry_round rounds page t ((id, msg) ∷ rest) =
    let (t', sent) = claim_and_act_on_agent_target page (record t { waiting = rest }) msg in
    let (t'', later) = rounds t' in (t'', sent ++ later)

-- A target that is declined again in a round waits again, and the loop comes to it.
pub retry_loop : ℕ → Page → Tab → Tab × List Effect
unfolding retry_round
retry_loop zero page t = (t, [])
retry_loop (suc f) page t = retry_round (retry_loop f page) page t t.waiting

-- The rounds are as many as the targets that wait at the start.
pub retry_if_free : Page → Tab → Option Reason → Tab × List Effect
unfolding retry_loop
retry_if_free page t (some busy) = (t, [])
retry_if_free page t none = retry_loop (length t.waiting) page t

unfoldable pub retry_declined_agent_targets : Page → Tab → Tab × List Effect
unfolding retry_if_free
retry_declined_agent_targets page t = retry_if_free page t (agent_target_busy_reason t none)

unfoldable pub set_live_state : Page → Tab → LiveState → Tab × List Effect
unfolding retry_declined_agent_targets
set_live_state page t next = retry_declined_agent_targets page (record t { state = next })
