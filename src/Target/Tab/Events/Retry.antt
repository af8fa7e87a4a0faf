-- ===== src/Target/Tab/Events/Retry.antt =====
-- A tab that comes free takes up every target that it declined as busy.
use nafir.Base.{
  ◌≡◌, Bool, true, false, ◌&&◌, none, some, List, [], ◌∷◌, length, any, refl, arith, Text, ap, sym,
  ◌∙◌, if◌then◌else◌,
}
use mathlib.Core.Path.{subst}
use nafir.Target.Resolve.{Page, Message, Resolution, found, missed, resolve_agent_target_element}
use nafir.Target.Tab.{
  Tab, LiveState, Status, declined, is_acting, is_other, Effect, ask, report_miss, set,
  note_agent_target, other_acting, agent_target_busy_reason, report_agent_target_unresolvable,
  unless_busy, with_element, guarded, claim_and_act_on_agent_target, retry_round, retry_loop,
  retry_if_free, retry_declined_agent_targets, set_live_state,
}
use nafir.Target.Tab.Events.Ledger.{any-set, any-elsewhere, any-trim}

-- What a free tab sends about one target: a claim if the page has the element, else why not.
abbrev pub word : LiveState → Message → Resolution → Effect
word s msg (found el n) = ask msg
word s msg (missed miss) = report_miss msg s miss

abbrev pub words : Page → LiveState → List (Text × Message) → List Effect
words page s [] = []
words page s ((id, msg) ∷ rest) =
    word s msg (resolve_agent_target_element page msg) ∷ words page s rest

-- Connected, and not busy for any target.
abbrev pub IsReady : Tab → Type 0
IsReady t = (t.connected ≡ true) × (agent_target_busy_reason t none ≡ none)

other_acting-some :
    (except : Text) (es : List (Text × Status))
    → other_acting none es ≡ false
    → other_acting (some except) es ≡ false
unfolding other_acting
other_acting-some except [] h = refl
other_acting-some except ((j, s) ∷ es) h = ground (arith, h, other_acting-some except es)

ready-free :
    (t : Tab) (id : Text)
    → agent_target_busy_reason t none ≡ none
    → agent_target_busy_reason t (some id) ≡ none
unfolding agent_target_busy_reason
ready-free t id h = ground (arith, h, other_acting-some id t.seen)

declined-IsReady : (t : Tab) (id : Text) → IsReady t → IsReady (note_agent_target t id declined)
unfolding agent_target_busy_reason note_agent_target other_acting
declined-IsReady t id (on, h) =
    let marks = λ (e : Text × Status). is_acting e.1 && is_other none e.0 in
    let resting : any marks t.seen ≡ false = ground (arith, h) in
    let kept =
      any-trim marks (set id declined t.seen)
        (any-set marks id declined t.seen refl (any-elsewhere marks id t.seen resting)) in
    (on, ground (arith, h, kept))

-- A round leaves the tab as ready as it was, with the same state and the same targets waiting.
IsRound : Tab → Effect → Tab × List Effect → Type 0
IsRound t sent r =
    IsReady r.0 × (r.0.waiting ≡ t.waiting) × (r.0.state ≡ t.state) × (r.1 ≡ sent ∷ [])

with_element-IsRound :
    (t : Tab) (msg : Message) (r : Resolution)
    → IsReady t
    → IsRound t (word t.state msg r) (with_element t msg (λ el n. (t, ask msg ∷ [])) r)
unfolding IsRound with_element report_agent_target_unresolvable note_agent_target
with_element-IsRound t msg (found el n) h = (h, refl, refl, refl)
with_element-IsRound t msg (missed miss) h = (declined-IsReady t msg.target_id h, refl, refl, refl)

if-true : {A : Type 0} (b : Bool) (x y : A) → b ≡ true → (if b then x else y) ≡ x
if-true true x y h = refl
if-true false x y h = cc

claim-IsRound :
    (page : Page) (t : Tab) (msg : Message)
    → IsReady t
    → IsRound t
        (word t.state msg (resolve_agent_target_element page msg))
        (claim_and_act_on_agent_target page t msg)
unfolding claim_and_act_on_agent_target guarded unless_busy
claim-IsRound page t msg (on, free) =
    let r = resolve_agent_target_element page msg in
    let asked = with_element t msg (λ el n. (t, ask msg ∷ [])) r in
    let through : claim_and_act_on_agent_target page t msg ≡ asked =
      if-true t.connected _ (t, []) on
      ∙ ap (unless_busy t msg asked) (ready-free t msg.target_id free) in
    subst (IsRound t (word t.state msg r)) (sym through) (with_element-IsRound t msg r (on, free))

-- Nothing waits any more, and the words about all that waited were sent, in order.
abbrev pub IsTakenUp : Page → LiveState → List (Text × Message) → Tab × List Effect → Type 0
IsTakenUp page s waiting r = (r.0.waiting ≡ []) × (r.1 ≡ words page s waiting)

retry_loop-IsTakenUp :
    (page : Page) (waiting : List (Text × Message)) (t : Tab)
    → IsReady t
    → t.waiting ≡ waiting
    → IsTakenUp page t.state waiting (retry_loop (length waiting) page t)
unfolding retry_loop retry_round IsRound agent_target_busy_reason
retry_loop-IsTakenUp page [] t h same = (same, refl)
retry_loop-IsTakenUp page ((id, msg) ∷ rest) t h same =
    let rounds = retry_loop (length rest) page in
    let (ready, left, state, sent) = claim-IsRound page (record t { waiting = rest }) msg h in
    let (empty, later) = retry_loop-IsTakenUp page rest _ ready left in
    subst (λ w. IsTakenUp page t.state ((id, msg) ∷ rest) (retry_round rounds page t w)) (sym same)
      (empty, rw (sent, later, state) refl)

-- A connected tab that enters a state in which it is not busy for any target takes up every target
-- that it declined as busy: it sends, in the order in which it declined them, a claim for each that
-- its page resolves and the resolution error of each other one, and none waits any more.
pub set_live_state-IsTakenUp :
    (page : Page) (t : Tab) (next : LiveState)
    → t.connected ≡ true
    → agent_target_busy_reason (record t { state = next }) none ≡ none
    → IsTakenUp page next t.waiting (set_live_state page t next)
unfolding set_live_state retry_declined_agent_targets retry_if_free
set_live_state-IsTakenUp page t next on free =
    let t' : Tab = record t { state = next } in
    subst (λ busy. IsTakenUp page next t.waiting (retry_if_free page t' busy)) (sym free)
      (retry_loop-IsTakenUp page t.waiting t' (on, free) refl)
