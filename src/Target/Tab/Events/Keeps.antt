-- ===== src/Target/Tab/Events/Keeps.antt =====
-- The handlers that note no target as acting leave the tab's target as it is.
use nafir.Base.{
  ℕ, suc, zero, Bool, true, false, not, ◌||◌, Option, none, some, List, [], ◌∷◌, length,
  if◌then◌else◌, refl, Text, Option-cases, inl, inr,
}
use nafir.Target.Resolve.{Element, Page, Message, Miss, Resolution, found, missed}
use nafir.Target.Tab.{
  Tab, LiveState, heard, declined, Reason, Effect, ask, note_agent_target, agent_target_taken, set,
  agent_target_busy_reason, decline_agent_target_busy, report_agent_target_unresolvable,
  unless_busy, guarded, claim_and_act_on_agent_target, hear, retry_round, retry_loop, retry_if_free,
  retry_declined_agent_targets, set_live_state,
}
use nafir.Target.Tab.Events.{watched, watch_agent_target_resolution}
use nafir.Target.Tab.Events.Ledger.{IsOn, note-IsOn, guarded-cases}

-- The tab stays connected, and keeps to one target.
abbrev pub KeepsTo : Text → Tab × List Effect → Type 0
KeepsTo a r = IsOn a r.0

pub either :
    (P : Tab × List Effect → Type 0) (b : Bool) {r s : Tab × List Effect}
    → P r
    → P s
    → P (if b then r else s)
either P true h k = h
either P false h k = k

pub decline-IsOn :
    (a : Text) (t : Tab) (msg : Message) (busy : Reason)
    → IsOn a t
    → IsOn a (decline_agent_target_busy t msg busy).0
unfolding decline_agent_target_busy
decline-IsOn a t msg busy h =
    note-IsOn a (record t { waiting = set msg.target_id msg t.waiting }) msg.target_id declined refl
      h

pub report-IsOn :
    (a : Text) (t : Tab) (msg : Message) (miss : Miss)
    → IsOn a t
    → IsOn a (report_agent_target_unresolvable t msg miss).0
unfolding report_agent_target_unresolvable
report-IsOn a t msg miss h = note-IsOn a t msg.target_id declined refl h

pub guarded-IsOn :
    (a : Text) (page : Page) (t : Tab) (msg : Message) (body : Element → ℕ → Tab × List Effect)
    → IsOn a t
    → ((el : Element) (n : ℕ) → IsOn a (body el n).0)
    → IsOn a (guarded page t msg body).0
guarded-IsOn a page t msg body h goes =
    guarded-cases (KeepsTo a) page t msg body (λ busy e. decline-IsOn a t msg busy h)
      (λ miss free. report-IsOn a t msg miss h) (λ el n free. goes el n)

pub claim-IsOn :
    (a : Text) (page : Page) (t : Tab) (msg : Message)
    → IsOn a t
    → IsOn a (claim_and_act_on_agent_target page t msg).0
unfolding claim_and_act_on_agent_target
claim-IsOn a page t msg h =
    either (KeepsTo a) t.connected
      (guarded-IsOn a page t msg (λ el n. (t, ask msg ∷ [])) h (λ el n. h)) h

pub retry_round-IsOn :
    (a : Text) (rounds : Tab → Tab × List Effect) (page : Page) (t : Tab)
    (waiting : List (Text × Message))
    → IsOn a t
    → ((t' : Tab) → IsOn a t' → IsOn a (rounds t').0)
    → IsOn a (retry_round rounds page t waiting).0
unfolding retry_round
retry_round-IsOn a rounds page t [] h loop = h
retry_round-IsOn a rounds page t ((id, msg) ∷ rest) h loop =
    loop _ (claim-IsOn a page (record t { waiting = rest }) msg h)

pub retry_loop-IsOn :
    (a : Text) (f : ℕ) (page : Page) (t : Tab) → IsOn a t → IsOn a (retry_loop f page t).0
unfolding retry_loop
retry_loop-IsOn a zero page t h = h
retry_loop-IsOn a (suc f) page t h =
    retry_round-IsOn a (retry_loop f page) page t t.waiting h (retry_loop-IsOn a f page)

pub retry-IsOn :
    (a : Text) (page : Page) (t : Tab) → IsOn a t → IsOn a (retry_declined_agent_targets page t).0
unfolding retry_declined_agent_targets retry_if_free
retry-IsOn a page t h = elim (Option-cases (agent_target_busy_reason t none)) [
  | inl free ↦ rw (free, retry_if_free) (retry_loop-IsOn a (length t.waiting) page t h)
  | inr (busy, e) ↦ rw (e, retry_if_free) h
]

pub set_live_state-IsOn :
    (a : Text) (page : Page) (t : Tab) (next : LiveState)
    → IsOn a t
    → IsOn a (set_live_state page t next).0
unfolding set_live_state
set_live_state-IsOn a page t next h = retry-IsOn a page (record t { state = next }) h

pub hear-IsOn :
    (a : Text) (page : Page) (hidden : Bool) (t : Tab) (msg : Message)
    → IsOn a t
    → IsOn a (hear page hidden t msg).0
unfolding hear
hear-IsOn a page hidden t msg h =
    let noted = note-IsOn a t msg.target_id heard refl h in
    either (KeepsTo a) (agent_target_taken t msg.target_id) h
      (guarded-IsOn a page (note_agent_target t msg.target_id heard) msg _ noted (λ el n. noted))

pub watched-IsOn :
    (a : Text) (page : Page) (t : Tab) (msg : Message) (r : Resolution)
    → IsOn a t
    → IsOn a (watched page t msg r).0
unfolding watched
watched-IsOn a page t msg (found el n) h = claim-IsOn a page t msg h
watched-IsOn a page t msg (missed miss) h = report-IsOn a t msg miss h

pub unless_busy-IsOn :
    (a : Text) (t : Tab) (msg : Message) (free : Tab × List Effect) (busy : Option Reason)
    → IsOn a t
    → IsOn a free.0
    → IsOn a (unless_busy t msg free busy).0
unfolding unless_busy
unless_busy-IsOn a t msg free none h k = k
unless_busy-IsOn a t msg free (some busy) h k = decline-IsOn a t msg busy h

pub watch-IsOn :
    (a : Text) (page : Page) (t : Tab) (msg : Message) (miss : Miss)
    → IsOn a t
    → IsOn a (watch_agent_target_resolution page t msg miss).0
unfolding watch_agent_target_resolution
watch-IsOn a page t msg miss h =
    either (KeepsTo a) (not t.connected || agent_target_taken t msg.target_id) h
      (unless_busy-IsOn a t msg _ _ h (watched-IsOn a page t msg _ h))
