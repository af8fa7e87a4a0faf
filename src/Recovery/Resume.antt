-- ===== src/Recovery/Resume.antt =====
-- What a tab resumes when its page is loaded, live-browser.js: the state that `resumeSession` works
-- on, `restoreSessionWithoutWrapper` as a whole, `restoreFromActiveSessions` and
-- `restoreSessionSupersedingHandledWrapper`. `Recovery/Resume/Start.antt` has `resumeSession`.
pub mod Start
pub mod Open
pub mod Ids
pub mod Published
pub mod Told
mod Tests
use nafir.Base.{
  ℕ, ◌==◌, Bool, true, false, not, ◌&&◌, ◌||◌, Option, none, some, List, [], ◌∷◌, if◌then◌else◌,
  Text, codes, is_empty, text_eq,
}
use nafir.Value.{Value, str, property, truthy}
use nafir.Session.Browser.{Platform}
use nafir.Session.{Tab, clear_session, clear_scroll_y, is_handled}
use nafir.Recovery.Summary.{Host, same_option, property?}
use nafir.Recovery.Meta.{reset_session_file_meta, is_framework_component_preview_mode}
use nafir.Recovery.Choice.{is_session_handled, load_own_session, choose_session}
use nafir.Recovery.State.{Outside, Choices, Counters, Resumed, resume}
use nafir.Recovery.State.Save.{Place, save_own_session}
use nafir.Recovery.Reload.{Reloads}

-- What the browser gives, and `APP_ROOT`, empty if it is not set; `parse_int` and `number` are
-- `parseInt` and `Number` of a count in the page, `none` for NaN.
pub record Setting : Type 1 where
  pub platform : Platform
  pub host : Host
  pub outside : Outside
  pub place : Text → Place
  pub app_root : Text
  pub parse_int : Text → Option ℕ
  pub number : Text → Option ℕ

-- An element with `data-impeccable-variants`: its data, empty where an attribute is missing, and
-- how many variants it holds.
pub record Wrapper : Type 0 where
  pub variants : Text
  pub carbonize : Text
  pub preview : Option Value
  pub count : Text
  pub children : ℕ
  pub inserts : Bool

-- What `findAnyVariantsWrapper` finds, and the id on the first element with
-- `data-impeccable-carbonize`, empty if there is none.
pub record Page : Type 0 where
  pub wrapper : Option Wrapper
  pub carbonized : Text

-- `svelteComponentSession`: its session, `mountedVariant`, 0 if none is mounted, and the count of
-- its manifest.
pub record Mount : Type 0 where
  pub session : Text
  pub variant : ℕ
  pub count : Option ℕ

-- The variables that are set: the session state, `currentSessionId`, empty for null, `state`, the
-- variables of a saved session, the counters and `recoveryWaitingForAnchor`; and those of the
-- reloads, and the component session. An id is a text.
pub record Scene (c : Setting) : Type 0 where
  pub tab : Tab c.platform
  pub current : Text
  pub state : Text
  pub choices : Choices
  pub counters : Counters
  pub waits : Bool
  pub reloads : Reloads
  pub component : Option Mount

-- What is done to the page and to the helper. `live_state` is what `setLiveState` does beside the
-- assignment, `queue` is `queueCheckpoint`, `send` is `sendCheckpoint`, and `inject` has the file,
-- the session and whether it is discarded as an orphan.
pub data Effect : Type 0 where
  live_state show_bar queue send : Text → Effect
  track observe lock_scroll hide_shader restart_shader finalize_insert : Effect
  disable_edit refresh_params remove_wrapper : Effect
  show_variant : ℕ → Effect
  settle_parameters : Text → Effect
  inject : Text → Text → Bool → Effect

abbrev pub id_text : Option Value → Text
id_text (some (str t)) = t
id_text _ = []

abbrev pub generating : Text
generating = codes "GENERATING"

abbrev pub cycling : Text
cycling = codes "CYCLING"

abbrev pub injected : Text → Option (Text × Bool) → List Effect
injected id none = []
injected id (some (file, orphan)) = inject file id orphan ∷ []

-- `wrapper?.dataset?.impeccableVariants || wrapper?.dataset?.impeccableCarbonize`, for the wrapper,
-- or else the carbonized element.
abbrev pub runtime_id : Page → Text
runtime_id page = elim page.wrapper [
  | none ↦ page.carbonized
  | some w ↦ if is_empty w.variants then w.carbonize else w.variants
]

module _ (c : Setting) where
  -- `resetSessionFileMeta`
  unfoldable pub reset_session_meta : Scene c → Scene c
  reset_session_meta s = record s {
    choices = record s.choices {
      files = reset_session_file_meta;
      picked_anchor = none;
      anchor_top = none;
    };
    waits = false;
  }

  -- The part of `cleanup` that is about the session.
  unfoldable pub leave_session : Scene c → Scene c
  leave_session s =
      let u : Scene c = reset_session_meta (record s {
        tab = clear_session c.platform (clear_scroll_y c.platform s.tab);
        choices = record s.choices { insert_placeholder = none };
      }) in
      record u {
        current = [];
        state = codes "PICKING";
        choices = record u.choices {
          parameter_state = some (str (codes "idle"));
          by_agent = false;
          action = some (str (codes "impeccable"));
        };
      }

  -- The session is chosen.
  unfoldable pub restored : Text → Value × Option Value → Scene c → Bool × Scene c × List Effect
  restored reason (saved, server) s =
      let z : Resumed = resume c.outside c.host.upper (saved, server) s.choices in
      let id = id_text z.id in
      (
        true,
        record s {
          tab =
              save_own_session c.platform c.outside.show (c.place generating) id z.choices
                z.counters s.tab;
          current = id;
          state = generating;
          choices = z.choices;
          counters = z.counters;
          waits = z.waits_for_anchor;
        },
        live_state generating
            ∷ show_bar (codes "generating")
            ∷ track
            ∷ observe
            ∷ queue reason
            ∷ injected id z.injects,
      )

  pub restore :
      Text → Scene c → Tab c.platform × Option (Value × Option Value) → Bool × Scene c × List Effect
  restore reason s (t, none) = (false, record s { tab = t }, [])
  restore reason s (t, some chosen) = restored reason chosen (record s { tab = t })

  -- `restoreSessionWithoutWrapper`
  unfoldable pub restore_session_without_wrapper :
      Text → Option (List Value) → Scene c → Bool × Scene c × List Effect
  unfolding restore
  restore_session_without_wrapper reason sessions s =
      restore reason s (choose_session c.platform c.host c.app_root s.tab sessions)

  abbrev pub is_mounted : Option Mount → Text → Bool
  is_mounted none id = false
  is_mounted (some m) id = text_eq m.session id

  abbrev pub has_page_wrapper : Option Wrapper → Bool
  has_page_wrapper none = false
  has_page_wrapper (some w) = not (is_framework_component_preview_mode w.preview)

  -- `restoreFromActiveSessions`; a reason that is empty is none.
  unfoldable pub restore_from_active_sessions :
      Page → Option (List Value) → Text → Scene c → Bool × Scene c × List Effect
  restore_from_active_sessions page sessions reason s =
      if has_page_wrapper page.wrapper
      then (false, s, [])
      else if is_mounted s.component s.current
      then (false, s, [])
      else restore_session_without_wrapper
          (if is_empty reason then codes "sse_connected" else reason) sessions s

  -- What is left of `restoreSessionSupersedingHandledWrapper` once the session is loaded.
  unfoldable pub supersede : Text → Scene c → Option Value → Bool × Scene c × List Effect
  supersede id s saved =
      let own = property? (codes "id") saved in
      if not (truthy own)
        || same_option own (some (str id))
        || is_session_handled c.platform c.host s.tab own
      then (false, s, [])
      else if same_option own (some (str s.current))
      then (true, s, [])
      else restore_session_without_wrapper (codes "browser_resumed_over_handled_wrapper") none s

  unfoldable pub restore_session_superseding_handled_wrapper :
      Page → Scene c → Bool × Scene c × List Effect
  restore_session_superseding_handled_wrapper page s =
      let id = runtime_id page in
      if is_empty id || not (is_handled c.platform s.tab id)
      then (false, s, [])
      else (let (t, saved) = load_own_session c.platform c.host c.app_root s.tab in
          supersede id (record s { tab = t }) saved)
