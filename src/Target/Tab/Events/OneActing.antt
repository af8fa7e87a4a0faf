-- ===== src/Target/Tab/Events/OneActing.antt =====
-- A connected tab acts on one target at a time.
use nafir.Base.{
  ℕ, ◌≡◌, ◌≢◌, Bool, true, false, none, some, List, [], ◌∷◌, if◌then◌else◌, arith, refl, Text,
  text_eq_iff, text_eq, ◌∙◌, sym, any, ap, Bool-cases, inl, inr,
}
use nafir.Target.Resolve.{Element, Page, Message}
use nafir.Target.Tab.{
  Tab, LiveState, configuring, generating, Status, acting, done, declined, denied, Effect,
  is_acting, note_agent_target, other_acting, status_of, decline_agent_target_busy,
  report_agent_target_unresolvable, act_on_element, act_on_agent_target, handle_agent_target,
}
use nafir.Target.Tab.Events.{
  claim_answer, report_answer, settled, give_way, handle_go, reply_go, renewal_answer,
  set_pending_apply, Event, target_came, claim_due, claim_answered, watch_due, report_answered,
  scroll_settled, renewal_answered, state_set, apply_set, step, run,
}
use nafir.Target.Tab.Events.Keeps.{
  KeepsTo, either, claim-IsOn, retry-IsOn, set_live_state-IsOn, hear-IsOn, watch-IsOn,
}
use nafir.Target.Tab.Events.Ledger.{
  IsOn, note-IsOn, note_twice-IsOn, blocks, guarded-cases, free-other_acting,
}

connected_only :
    (P : Tab × List Effect → Type 0) (b : Bool) {r : Tab × List Effect} (s : Tab × List Effect)
    → b ≡ true
    → P r
    → P (if b then r else s)
connected_only P true s e h = h
connected_only P false s e h = cc

-- Some target is the only one that the tab acts on.
abbrev HasOne : Tab × List Effect → Type 0
HasOne r = (b : Text) × IsOn b r.0

-- The answer to a claim: the tab keeps to its target, or goes over to the one that was granted.
act-IsOn :
    (a : Text) (page : Page) (t : Tab) (msg : Message)
    → IsOn a t
    → HasOne (act_on_agent_target page (note_agent_target t msg.target_id acting) msg)
unfolding act_on_agent_target act_on_element note_agent_target decline_agent_target_busy
    report_agent_target_unresolvable
act-IsOn a page t msg h =
    let id = msg.target_id in
    let t' : Tab = note_agent_target t id acting in
    let left = note_twice-IsOn a t id declined refl h in
    connected_only HasOne t.connected (t', []) h.0
      (guarded-cases HasOne page t' msg (act_on_element page t' msg) (λ busy e. (a, left))
        (λ miss free. (a, left))
        (λ el n free.
          let on : IsOn id t' = (h.0, free-other_acting t' (some id) free) in
          (id, either (KeepsTo id) msg.dry_run (note-IsOn id t' id done refl on) on)))

claim_answer-IsOn :
    (a : Text) (page : Page) (t : Tab) (msg : Message) (granted pending : Bool)
    → IsOn a t
    → HasOne (claim_answer page t msg granted pending)
unfolding claim_answer
claim_answer-IsOn a page t msg true pending h = act-IsOn a page t msg h
claim_answer-IsOn a page t msg false pending h = (a, note-IsOn a t msg.target_id denied refl h)

reply_go-IsOn :
    (a : Text) (page : Page) (t : Tab) (msg : Message) (el : Element) (n : ℕ) (s : LiveState)
    → IsOn a t
    → IsOn a (reply_go page t msg el n s).0
unfolding reply_go
reply_go-IsOn a page t msg el n generating h = note-IsOn a t msg.target_id done refl h
reply_go-IsOn a page t msg el n _ h = note-IsOn a t msg.target_id done refl h

give_way-IsOn : (a : Text) (page : Page) (t : Tab) → IsOn a t → IsOn a (give_way page t).0
unfolding give_way
give_way-IsOn a page t h =
    either (KeepsTo a) _ (set_live_state-IsOn a page (record t { configures_insert = false }) _ h) h

handle_go-IsOn : (a : Text) (page : Page) (t : Tab) → IsOn a t → IsOn a (handle_go page t).0
unfolding handle_go
handle_go-IsOn a page t h =
    either (KeepsTo a) t.pending_apply_in_flight h
      (either (KeepsTo a) _ (set_live_state-IsOn a page t generating h) h)

renewal-IsOn :
    (a : Text) (page : Page) (t : Tab) (msg : Message) (el : Element) (n : ℕ) (granted : Bool)
    → IsOn a t
    → IsOn a (renewal_answer page t msg el n granted).0
unfolding renewal_answer
renewal-IsOn a page t msg el n false h = note-IsOn a t msg.target_id done refl h
renewal-IsOn a page t msg el n true h =
    reply_go-IsOn a page _ msg el n _ (
      handle_go-IsOn a page _ (set_live_state-IsOn a page _ configuring (give_way-IsOn a page t h)))

step-IsOn : (a : Text) (page : Page) (t : Tab) (e : Event) → IsOn a t → HasOne (step page t e)
unfolding step handle_agent_target report_answer settled set_pending_apply
step-IsOn a page t (target_came hidden none) h = (a, h)
step-IsOn a page t (target_came hidden (some msg)) h = (a, hear-IsOn a page hidden t msg h)
step-IsOn a page t (claim_due msg) h = (a, claim-IsOn a page t msg h)
step-IsOn a page t (claim_answered msg granted pending) h =
    claim_answer-IsOn a page t msg granted pending h
step-IsOn a page t (watch_due msg miss) h = (a, watch-IsOn a page t msg miss h)
step-IsOn a page t (report_answered msg miss pending) h = (a, h)
step-IsOn a page t (scroll_settled msg el n) h = (a, h)
step-IsOn a page t (renewal_answered msg el n granted) h =
    (a, renewal-IsOn a page t msg el n granted h)
step-IsOn a page t (state_set next) h = (a, set_live_state-IsOn a page t next h)
step-IsOn a page t (apply_set true) h = (a, h)
step-IsOn a page t (apply_set false) h =
    (a, retry-IsOn a page (record t { pending_apply_in_flight = false }) h)

run-IsOn :
    (a : Text) (t : Tab) (events : List (Page × Event))
    → IsOn a t
    → (b : Text) × IsOn b (run t events)
unfolding run
run-IsOn a t [] h = (a, h)
run-IsOn a t ((page, e) ∷ events) h =
    let (b, k) = step-IsOn a page t e h in run-IsOn b (step page t e).0 events k

acting-eq :
    (a b : Text) (es : List (Text × Status))
    → any (blocks a) es ≡ false
    → status_of b es ≡ some acting
    → b ≡ a
unfolding status_of
acting-eq a b [] h e = cc
acting-eq a b ((j, s) ∷ es) h e = elim (Bool-cases (text_eq j b)) [
  | inl same ↦
      let now : s ≡ acting = cc in
      let marked : is_acting s ≡ true = ap is_acting now in
      let own : text_eq j a ≡ true = ground (arith, h, marked) in
      sym ((text_eq_iff j b).0 same) ∙ (text_eq_iff j a).0 own
  | inr differ ↦ acting-eq a b es (ground (arith, h)) (rw (differ, status_of) at e)
]

-- A tab that is connected and acts on one target at most does so after any events, on whatever
-- pages: while one target has the status `acting`, no other one has.
pub run-acts_on_one :
    (t : Tab) (a : Text) (events : List (Page × Event)) (b c : Text)
    → IsOn a t
    → status_of b (run t events).seen ≡ some acting
    → b ≢ c
    → status_of c (run t events).seen ≢ some acting
unfolding other_acting
run-acts_on_one t a events b c h eb ne ec =
    let (d, on) = run-IsOn a t events h in
    ne (acting-eq d b (run t events).seen on.1 eb ∙ sym (acting-eq d c (run t events).seen on.1 ec))
