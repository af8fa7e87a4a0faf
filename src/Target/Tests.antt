-- ===== src/Target/Tests.antt =====
-- The laws of agent targets at inputs, and tests.
use nafir.Base.{
  ◌≡◌, ◌≢◌, arith, ap, true, false, none, some, List, [], ◌∷◌, All, inr, refl, codes, length,
}
use nafir.Base.Int.{pos}
use nafir.Target.Resolve.{
  Element, Page, Message, describe_agent_target_candidate, resolve_agent_target_element,
}
use nafir.Target.Tab.{
  Tab, picking, generating, acting, agent_target_busy_reason, go, status_of, other_acting,
  set_live_state,
}
use nafir.Target.Tab.Events.{Event, target_came, claim_answered, renewal_answered, step, run}
use nafir.Target.Tab.Events.OneActing.{run-acts_on_one}
use nafir.Target.Tab.Events.Busy.{IsWord, step-Reports}
use nafir.Target.Tab.Events.Retry.{IsTakenUp, set_live_state-IsTakenUp}

abbrev button : Element
button = record {
  tag_name = codes "BUTTON";
  id = [];
  class_list = [];
  text_content = codes "Save";
  pickable = true;
}

abbrev link : Element
link = record {
  tag_name = codes "A";
  id = codes "home";
  class_list = [];
  text_content = codes "Home";
  pickable = true;
}

-- A page with a button and a link, which every selector finds.
abbrev page : Page
page = record { query_selector_all = λ selector. some (button ∷ link ∷ []); lower = λ t. t }

abbrev save_button : Message
save_button = record {
  target_id = codes "first";
  selector = codes "*";
  text = codes "Save";
  index = none;
  dry_run = false;
}

abbrev second : Message
second = record {
  target_id = codes "second";
  selector = codes "*";
  text = [];
  index = some (pos 2);
  dry_run = false;
}

abbrev tab : Tab
tab = record {
  state = picking;
  insert_active = false;
  configures_insert = false;
  pending_apply_in_flight = false;
  connected = true;
  seen = [];
  waiting = [];
}

abbrev busy_tab : Tab
busy_tab = record tab {
  state = generating;
  waiting = (codes "first", save_button) ∷ (codes "second", second) ∷ [];
}

-- The first target is granted, and so is the second one while the first acts.
abbrev two_grants : List (Page × Event)
two_grants =
    (page, target_came false (some save_button))
    ∷ (page, target_came false (some second))
    ∷ (page, claim_answered save_button true true)
    ∷ (page, claim_answered second true true)
    ∷ []

first_acts : status_of (codes "first") (run tab two_grants).seen ≡ some acting
unfolding run status_of agent_target_busy_reason resolve_agent_target_element
first_acts = refl

-- After a scroll and the renewal the tab presses Go.
presses_go :
    (step page (run tab two_grants) (renewal_answered save_button button 1 true)).0.state
    ≡ generating
unfolding run step set_live_state agent_target_busy_reason resolve_agent_target_element
presses_go = refl

-- The same target is replayed before its first claim is answered, and both claims and both renewals
-- are granted: Go is pressed at both.
abbrev replayed : List (Page × Event)
replayed =
    (page, target_came false (some save_button))
    ∷ (page, target_came false (some save_button))
    ∷ (page, claim_answered save_button true true)
    ∷ (page, claim_answered save_button true true)
    ∷ (page, renewal_answered save_button button 1 true)
    ∷ []

second_go :
    (step page (run tab replayed) (renewal_answered save_button button 1 true)).1
    ≡ go save_button 1 (describe_agent_target_candidate page button) ∷ []
unfolding run step set_live_state agent_target_busy_reason resolve_agent_target_element
second_go = refl

run-acts_on_one_example : status_of (codes "second") (run tab two_grants).seen ≢ some acting
unfolding other_acting
run-acts_on_one_example =
    run-acts_on_one tab (codes "first") two_grants (codes "first") (codes "second") (refl, refl)
      first_acts (λ e. omega (arith, ap length e))

step-Reports_example : All IsWord (step page busy_tab (claim_answered save_button true true)).1
step-Reports_example =
    step-Reports page busy_tab (claim_answered save_button true true) (inr refl) tt

set_live_state-IsTakenUp_example :
    IsTakenUp page picking busy_tab.waiting (set_live_state page busy_tab picking)
unfolding agent_target_busy_reason
set_live_state-IsTakenUp_example = set_live_state-IsTakenUp page busy_tab picking refl refl
