-- ===== src/Target/Tab/Events/Busy.antt =====
-- A tab that is busy for its user only says so.
use nafir.Base.{
  ℕ, ◌≡◌, ◌⊎◌, inl, inr, Text, Bool-cases, true, false, not, ◌||◌, Option, none, some, List, All,
  arith,
}
use nafir.Target.Resolve.{Element, Page, Message}
use nafir.Target.Tab.{
  Tab, is_selectable, heard, acting, Reason, manual_apply_in_flight, session_active, Effect,
  report_busy, claim_after, watch_after, note_agent_target, agent_target_taken,
  agent_target_busy_reason, decline_agent_target_busy, unless_busy, guarded,
  claim_and_act_on_agent_target, act_on_agent_target, hear, handle_agent_target,
}
use nafir.Target.Tab.Events.{
  claim_answer, report_answer, watch_agent_target_resolution, Event, target_came, claim_due,
  claim_answered, watch_due, report_answered, step,
}
use nafir.Target.Tab.Events.Ledger.{guarded-cases}
use nafir.Target.Tab.Events.Keeps.{either}

-- An apply is in flight, or the live state is none in which an element may be picked.
abbrev pub IsEngaged : Tab → Type 0
IsEngaged t = (t.pending_apply_in_flight ≡ true) ⊎ (is_selectable t.state ≡ false)

-- A word about itself, and a timer: no claim of a lease, no scroll, no result and no Go.
abbrev pub IsWord : Effect → Type 0
IsWord (report_busy msg state busy) = Unit
IsWord (claim_after delay msg) = Unit
IsWord (watch_after delay msg miss) = Unit
IsWord _ = ⊥

-- The events that offer a target to the tab.
abbrev pub IsOffer : Event → Type 0
IsOffer (target_came hidden msg) = Unit
IsOffer (claim_due msg) = Unit
IsOffer (claim_answered msg granted pending) = Unit
IsOffer (watch_due msg miss) = Unit
IsOffer (report_answered msg miss pending) = Unit
IsOffer _ = ⊥

abbrev Reports : Tab × List Effect → Type 0
Reports r = All IsWord r.1

engaged-busy :
    (t : Tab) (except : Option Text)
    → IsEngaged t
    → (busy : Reason) × (agent_target_busy_reason t except ≡ some busy)
unfolding agent_target_busy_reason
engaged-busy t except (inl applying) = (manual_apply_in_flight, ground (arith, applying))
engaged-busy t except (inr state) = elim (Bool-cases t.pending_apply_in_flight) [
  | inl applying ↦ (manual_apply_in_flight, ground (arith, applying))
  | inr resting ↦ (session_active, ground (arith, resting, state))
]

not-free :
    {B : Type 0} (t : Tab) (except : Option Text)
    → IsEngaged t
    → agent_target_busy_reason t except ≡ none
    → B
not-free t except h free = let (busy, e) = engaged-busy t except h in cc

guarded-Reports :
    (page : Page) (t : Tab) (msg : Message) (body : Element → ℕ → Tab × List Effect)
    → IsEngaged t
    → Reports (guarded page t msg body)
unfolding decline_agent_target_busy
guarded-Reports page t msg body h =
    guarded-cases Reports page t msg body (λ busy e. (tt, tt))
      (λ miss free. not-free t (some msg.target_id) h free)
      (λ el n free. not-free t (some msg.target_id) h free)

unless_busy-Reports :
    (t : Tab) (msg : Message) (free : Tab × List Effect)
    → IsEngaged t
    → Reports (unless_busy t msg free (agent_target_busy_reason t (some msg.target_id)))
unfolding unless_busy decline_agent_target_busy
unless_busy-Reports t msg free h =
    let (busy, e) = engaged-busy t (some msg.target_id) h in rw (e, unless_busy) (tt, tt)

-- A tab with an apply in flight, or in a state in which no element may be picked, answers every
-- offer of a target with words and timers only: it claims no lease, and neither scrolls, replies
-- nor presses Go, also where its claim was granted.
pub step-Reports :
    (page : Page) (t : Tab) (e : Event) → IsEngaged t → IsOffer e → All IsWord (step page t e).1
unfolding step handle_agent_target hear claim_and_act_on_agent_target claim_answer
    act_on_agent_target watch_agent_target_resolution report_answer note_agent_target
step-Reports page t (target_came hidden none) h o = tt
step-Reports page t (target_came hidden (some msg)) h o =
    either Reports (agent_target_taken t msg.target_id) tt
      (guarded-Reports page (note_agent_target t msg.target_id heard) msg _ h)
step-Reports page t (claim_due msg) h o =
    either Reports t.connected (guarded-Reports page t msg _ h) tt
step-Reports page t (claim_answered msg true pending) h o =
    either Reports t.connected
      (guarded-Reports page (note_agent_target t msg.target_id acting) msg _ h) tt
step-Reports page t (claim_answered msg false true) h o = (tt, tt)
step-Reports page t (claim_answered msg false false) h o = tt
step-Reports page t (watch_due msg miss) h o =
    either Reports (not t.connected || agent_target_taken t msg.target_id) tt
      (unless_busy-Reports t msg _ h)
step-Reports page t (report_answered msg miss true) h o = (tt, tt)
step-Reports page t (report_answered msg miss false) h o = tt
step-Reports page t _ h o = absurd o
