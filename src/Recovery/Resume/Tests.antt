-- ===== src/Recovery/Resume/Tests.antt =====
-- The start of a page at an input, and tests.
use nafir.Base.{
  ℕ, ◌≡◌, true, false, Option, none, some, [], if◌then◌else◌, Text, codes, text_eq, ends_with, refl,
}
use nafir.Value.{Value, str, obj, field, end, get, property, text_or_empty}
use nafir.Session.Browser.{Platform}
use nafir.Session.{Tab, load_session, is_handled, read_handled_ids}
use nafir.Session.Tests.{browser, browser_documented}
use nafir.Recovery.Summary.{page_matches_current, find_active_session_summary}
use nafir.Recovery.Choice.{choose_session, load_own_session, kept_or_cleared, is_session_handled}
use nafir.Recovery.Meta.{component_mode}
use nafir.Recovery.State.{apply_meta, resume}
use nafir.Recovery.State.Tests.{outside, page, fresh}
use nafir.Recovery.Reload.{writable, schedule_handled_runtime_wrapper_reload}
use nafir.Recovery.Reload.Budget.{no_reloads}
use nafir.Recovery.Resume.{
  Setting, Wrapper, Page, Mount, Scene, restored, restore_session_without_wrapper, supersede,
  restore_session_superseding_handled_wrapper, restore_from_active_sessions,
}
use nafir.Recovery.Resume.Start.{
  resume_component, resume_framework, resume_page, resume_shown, resume_session,
}
use nafir.Recovery.Resume.Open.{IsOpen, resume_session-IsOpen}
use nafir.Recovery.Resume.Published.{IsPublished, resume_session-IsPublished}

-- A browser that has stored a session s2 of this page, and s1 as handled.
abbrev stored : Platform
stored = record {
  Store = ℕ;
  Number = ℕ;
  get_item = λ s k. some (some (if ends_with k (codes "-handled") then codes "h" else codes "s"));
  set_item = λ s k v. none;
  remove_item = λ s k. none;
  parse = λ t.
      if text_eq t (codes "h")
      then some (str (codes "s1"))
      else some (
          obj (
            field (codes "id") (str (codes "s2")) (
              field (codes "state") (str (codes "CYCLING")) (
                field (codes "action") (str (codes "bolder"))
                  (field (codes "pageUrl") (str (codes "/shop")) end)))));
  stringify = λ v. [];
  show = λ n. [];
  parse_float = λ t. none;
}

abbrev on : Platform → Setting
on p = record {
  platform = p;
  host = record {
    pathname = codes "/shop";
    url_path = λ t. some t;
    upper = λ t. t;
    number_or_zero = λ v. str [];
    is_positive = λ v. true;
  };
  outside = outside;
  place = λ state. page;
  app_root = codes "/app";
  parse_int = λ t. some 3;
  number = λ t. some 3;
}

abbrev loaded : (p : Platform) → Tab p → Option Mount → Scene (on p)
loaded p t component = record {
  tab = t;
  current = [];
  state = codes "IDLE";
  choices = fresh;
  counters = record { expected = some 0; arrived = some 0; visible = 0 };
  waits = false;
  reloads = no_reloads;
  component = component;
}

abbrev own : Tab stored
own = record { prefix = codes "live"; owner = codes "o"; revision = 0; store = 0 }

abbrev tab : Tab browser
tab = record { prefix = codes "live"; owner = codes "o"; revision = 0; store = [] }

abbrev wrapper_of : Text → Option Value → Wrapper
wrapper_of id preview = record {
  variants = id;
  carbonize = [];
  preview = preview;
  count = codes "3";
  children = 2;
  inserts = false;
}

abbrev shows : Wrapper → Page
shows w = record { wrapper = some w; carbonized = [] }

-- The session that is saved is resumed over the wrapper of the one that is handled.
takes_over :
    (resume_session
      (on stored)
      []
      (shows (wrapper_of (codes "s1") none))
      false
      writable
      (loaded stored own none)).1.current
    ≡ codes "s2"
unfolding resume_session restore_session_superseding_handled_wrapper is_handled read_handled_ids
    load_own_session kept_or_cleared load_session supersede is_session_handled
    restore_session_without_wrapper choose_session restored resume property get page_matches_current
    text_or_empty find_active_session_summary
takes_over = refl

-- The component of s3 is mounted: it is resumed with the action of s2.
abbrev mounted : Option Mount
mounted = some (record { session = codes "s3"; variant = 1; count = none })

resumes_with_action :
    (resume_session
      (on stored)
      []
      (shows (wrapper_of (codes "s3") component_mode))
      false
      writable
      (loaded stored own mounted)).1.choices.action
    ≡ some (str (codes "bolder"))
unfolding resume_session restore_session_superseding_handled_wrapper is_handled read_handled_ids
    load_own_session kept_or_cleared load_session resume_shown resume_page resume_framework
    resume_component schedule_handled_runtime_wrapper_reload property get apply_meta
resumes_with_action = refl

resume_session-IsPublished_example : IsPublished (on stored) (wrapper_of (codes "s3") none) (
    resume_session
      (on stored)
      (codes "browser_resumed")
      (shows (wrapper_of (codes "s3") none))
      false
      writable
      (loaded stored own none))
unfolding is_handled read_handled_ids
resume_session-IsPublished_example =
    resume_session-IsPublished (on stored) (codes "browser_resumed") (wrapper_of (codes "s3") none)
      [] false writable (loaded stored own none) refl refl refl

resume_session-IsOpen_example :
    IsOpen (on browser) browser_documented tab [] (
      resume_session
        (on browser)
        []
        (shows (wrapper_of (codes "s1") none))
        false
        writable
        (loaded browser tab none))
    × IsOpen (on browser) browser_documented tab [] (
        restore_from_active_sessions
          (on browser)
          (shows (wrapper_of (codes "s1") none))
          none
          []
          (loaded browser tab none))
resume_session-IsOpen_example =
    resume_session-IsOpen (on browser) browser_documented [] (shows (wrapper_of (codes "s1") none))
      false writable none (loaded browser tab none)
