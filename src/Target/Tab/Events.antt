-- ===== src/Target/Tab/Events.antt =====
-- What comes back to the tab: the answers of the server to its claims and reports, its timers, the
-- end of a scroll, and the changes of state that other code makes. Each event carries the page as
-- it is at that time.
pub mod Ledger
pub mod Keeps
pub mod OneActing
pub mod Busy
pub mod Retry
use nafir.Base.{
  ℕ, Bool, true, false, ◌&&◌, ◌||◌, not, Option, none, some, List, [], ◌∷◌, ◌++◌, if◌then◌else◌,
}
use nafir.Target.Resolve.{
  Element, Page, Message, Description, describe_agent_target_candidate, Miss, Resolution, found,
  missed, resolve_agent_target_element,
}
use nafir.Target.Tab.{
  Tab, LiveState, idle, picking, configuring, generating, done, acting, denied, Reason, Effect,
  renew, go, go_failed, claim_after, watch_after, note_agent_target, agent_target_taken,
  agent_target_busy_reason, unless_busy, claim_and_act_on_agent_target, act_on_agent_target,
  report_agent_target_unresolvable, handle_agent_target, set_live_state,
  retry_declined_agent_targets,
}

-- The continuation of the first claim.
pub claim_answer : Page → Tab → Message → Bool → Bool → Tab × List Effect
unfolding note_agent_target act_on_agent_target
claim_answer page t msg true pending =
    act_on_agent_target page (note_agent_target t msg.target_id acting) msg
claim_answer page t msg false pending =
    (note_agent_target t msg.target_id denied, if pending then claim_after 3500 msg ∷ [] else [])

-- The continuation of `reportAgentTargetUnresolvable`.
pub report_answer : Tab → Message → Miss → Bool → Tab × List Effect
report_answer t msg miss pending = (t, if pending then watch_after 500 msg miss ∷ [] else [])

-- The last lines of `watchAgentTargetResolution`; a miss always comes with its own error.
pub watched : Page → Tab → Message → Resolution → Tab × List Effect
unfolding claim_and_act_on_agent_target report_agent_target_unresolvable
watched page t msg (found el n) = claim_and_act_on_agent_target page t msg
watched page t msg (missed miss) = report_agent_target_unresolvable t msg miss

pub watch_agent_target_resolution : Page → Tab → Message → Miss → Tab × List Effect
unfolding agent_target_taken watched unless_busy
watch_agent_target_resolution page t msg last_error =
    if not t.connected || agent_target_taken t msg.target_id
    then (t, [])
    else unless_busy t msg (watched page t msg (resolve_agent_target_element page msg))
        (agent_target_busy_reason t (some msg.target_id))

-- The callback of `scrollAgentTargetIntoView`.
pub settled : Tab → Message → Element → ℕ → Tab × List Effect
settled t msg el n = (t, if t.connected then renew msg el n ∷ [] else [])

abbrev pub is_configuring : LiveState → Bool
is_configuring configuring = true
is_configuring _ = false

-- `cancelInsertConfigure`, under the test of its call: an insert placement gives way.
pub give_way : Page → Tab → Tab × List Effect
give_way page t =
    if is_configuring t.state && t.configures_insert
    then set_live_state page (record t { configures_insert = false })
        (if t.insert_active then picking else idle)
    else (t, [])

-- The guards and the transition of `handleGo` with an element that is selected.
pub handle_go : Page → Tab → Tab × List Effect
handle_go page t =
    if t.pending_apply_in_flight
    then (t, [])
    else if is_configuring t.state
    then set_live_state page t generating
    else (t, [])

-- The reply behind `handleGo`.
pub reply_go : Page → Tab → Message → Element → ℕ → LiveState → Tab × List Effect
unfolding note_agent_target
reply_go page t msg el n generating = (
  note_agent_target t msg.target_id done,
  go msg n (describe_agent_target_candidate page el) ∷ [],
)
reply_go page t msg el n state = (note_agent_target t msg.target_id done, go_failed msg state ∷ [])

-- The continuation of the renewal.
pub renewal_answer : Page → Tab → Message → Element → ℕ → Bool → Tab × List Effect
unfolding note_agent_target give_way handle_go reply_go
renewal_answer page t msg el n false = (note_agent_target t msg.target_id done, [])
renewal_answer page t msg el n true =
    let (t1, sent1) = give_way page t in
    let (t2, sent2) = set_live_state page t1 configuring in
    let (t3, sent3) = handle_go page t2 in
    let (t4, sent4) = reply_go page t3 msg el n t3.state in (t4, sent1 ++ sent2 ++ sent3 ++ sent4)

-- The assignment to `pendingApplyInFlight` in `setPendingApplyLoading` and `hidePendingApplyDock`.
pub set_pending_apply : Page → Tab → Bool → Tab × List Effect
set_pending_apply page t true = (record t { pending_apply_in_flight = true }, [])
set_pending_apply page t false =
    retry_declined_agent_targets page (record t { pending_apply_in_flight = false })

pub data Event : Type 0 where
  target_came : Bool → Option Message → Event
  claim_due : Message → Event
  claim_answered : Message → Bool → Bool → Event
  watch_due : Message → Miss → Event
  report_answered : Message → Miss → Bool → Event
  scroll_settled : Message → Element → ℕ → Event
  renewal_answered : Message → Element → ℕ → Bool → Event
  state_set : LiveState → Event
  apply_set : Bool → Event

unfoldable pub step : Page → Tab → Event → Tab × List Effect
unfolding handle_agent_target claim_and_act_on_agent_target claim_answer
    watch_agent_target_resolution report_answer settled renewal_answer set_pending_apply
step page t (target_came hidden msg) = handle_agent_target page hidden t msg
step page t (claim_due msg) = claim_and_act_on_agent_target page t msg
step page t (claim_answered msg granted pending) = claim_answer page t msg granted pending
step page t (watch_due msg miss) = watch_agent_target_resolution page t msg miss
step page t (report_answered msg miss pending) = report_answer t msg miss pending
step page t (scroll_settled msg el n) = settled t msg el n
step page t (renewal_answered msg el n granted) = renewal_answer page t msg el n granted
step page t (state_set next) = set_live_state page t next
step page t (apply_set loading) = set_pending_apply page t loading

unfoldable pub run : Tab → List (Page × Event) → Tab
unfolding step
run t [] = t
run t ((page, e) ∷ events) = run (step page t e).0 events
