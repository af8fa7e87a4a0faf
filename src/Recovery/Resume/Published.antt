-- ===== src/Recovery/Resume/Published.antt =====
-- A page that is loaded with a wrapper takes it up, and tells the helper what has arrived.
use nafir.Base.{
  ◌≤◌, ◌<◌, ◌≡◌, Bool, true, false, not, ◌&&◌, ◌||◌, Option, some, List, [], if◌then◌else◌, ltb,
  Text, codes, is_empty, refl, ◌∙◌, branch_true, branch_false,
}
use mathlib.Core.Path.{subst}
use nafir.Value.{Value}
use nafir.Session.{Tab, is_handled}
use nafir.Recovery.Meta.{is_framework_component_preview_mode}
use nafir.Recovery.Reload.{Access, Reloads, schedule_handled_runtime_wrapper_reload}
use nafir.Recovery.Resume.{
  Setting, Wrapper, Page, Scene, Effect, generating, cycling, runtime_id,
  restore_session_superseding_handled_wrapper,
}
use nafir.Recovery.Resume.Start.{
  is_reached, is_below, resume_variants, resume_page, resume_shown, resume_session,
}
use nafir.Recovery.Resume.Told.{
  is_sent, is_shown, ready, progress, is_sent-ready, is_sent-progress, visible-wrapper_counters,
  is_sent-wrapper_effects, is_shown-wrapper_effects,
}

-- A resume of the wrapper: it is the session that is current, with an index of the visible variant
-- among the variants of the wrapper, if it has any, and what is told to the helper is what arrived.
pub record IsPublished (c : Setting) (w : Wrapper) (r : Bool × Scene c × List Effect) : Type 0 where
  resumes : r.0 ≡ true
  is_current : r.1.current ≡ w.variants
  cycles : r.1.state ≡ (if ltb 0 w.children then cycling else generating)
  at_most : r.1.counters.visible ≤ w.children
  at_least : 0 < w.children → 0 < r.1.counters.visible
  uncovers : is_shown r.2 ≡ ltb 0 w.children
  all_arrived :
      is_sent ready r.2 ≡ (ltb 0 w.children && is_reached w.children r.1.counters.expected)
  some_arrived :
      is_sent progress r.2 ≡ (ltb 0 w.children && is_below w.children r.1.counters.expected)

module _ (c : Setting) (reason : Text) (w : Wrapper) where
  resume_variants-IsPublished :
      (loaded : Tab c.platform × Option Value) (s : Scene c)
      → IsPublished c w (resume_variants c reason w loaded s)
  unfolding resume_variants
  resume_variants-IsPublished (t, saved) s =
      let expected = c.parse_int (if is_empty w.count then codes "0" else w.count) in
      let range = visible-wrapper_counters c.outside expected w.children saved w.variants in
      record {
        resumes = refl;
        is_current = refl;
        cycles = refl;
        at_most = range.0;
        at_least = range.1;
        uncovers = is_shown-wrapper_effects reason w _ _;
        all_arrived =
            is_sent-wrapper_effects ready reason w _ _ ∙ is_sent-ready reason w.children _;
        some_arrived =
            is_sent-wrapper_effects progress reason w _ _ ∙ is_sent-progress reason w.children _;
      }

  resume_page-IsPublished :
      (s : Scene c)
      → is_handled c.platform s.tab w.variants ≡ false
      → is_framework_component_preview_mode w.preview ≡ false
      → IsPublished c w (resume_page c reason (some w) s)
  unfolding resume_page
  resume_page-IsPublished s fresh plain =
      branch_false (IsPublished c w) _ _ fresh
        (branch_false (IsPublished c w) _ _ plain (resume_variants-IsPublished _ s))

  -- A wrapper that is not handled is neither superseded nor a reason to reload.
  resume_session-resume_page :
      (carbonized : Text) (moved : Bool) (access : Access) (s : Scene c)
      → is_empty w.variants ≡ false
      → is_handled c.platform s.tab w.variants ≡ false
      → resume_page c reason (some w) s
        ≡ resume_session c reason
            (record { wrapper = some w; carbonized = carbonized })
            moved
            access
            s
  unfolding resume_session resume_shown restore_session_superseding_handled_wrapper
      schedule_handled_runtime_wrapper_reload
  resume_session-resume_page carbonized moved access s named fresh =
      let page : Page = record { wrapper = some w; carbonized = carbonized } in
      let own : runtime_id page ≡ w.variants = rw named in
      let strange : (is_empty (runtime_id page)
            || not (is_handled c.platform s.tab (runtime_id page)))
          ≡ true =
        rw own (rw (named, fresh)) in
      branch_true
        (λ (r : Bool × Scene c × List Effect).
          resume_page c reason (some w) s
          ≡ (if r.0 then (true, r.1, r.2) else resume_shown c reason page moved access r.1))
        (is_empty (runtime_id page) || not (is_handled c.platform s.tab (runtime_id page))) _
        strange
        (branch_true
          (λ (q : Bool × Reloads). resume_page c reason (some w) s ≡ (
            if q.0
            then (false, record s { reloads = q.1 }, [])
            else resume_page c reason (some w) s))
          (is_empty (runtime_id page) || not (is_handled c.platform s.tab (runtime_id page))) _
          strange refl)

  -- A page that is loaded with a wrapper that has an id, is not handled and is no framework's takes
  -- it up, whatever the saved session is: its session is current, the page cycles exactly if a
  -- variant is there, the shader is hidden exactly then, and the visible one is among them; the
  -- helper is told that all variants are there exactly if as many as expected are and some are
  -- expected, and of progress exactly if some are there but less than expected.
  pub resume_session-IsPublished :
      (carbonized : Text) (moved : Bool) (access : Access) (s : Scene c)
      → is_empty w.variants ≡ false
      → is_handled c.platform s.tab w.variants ≡ false
      → is_framework_component_preview_mode w.preview ≡ false
      → IsPublished c w (
          resume_session c reason
            (record { wrapper = some w; carbonized = carbonized })
            moved
            access
            s)
  resume_session-IsPublished carbonized moved access s named fresh plain =
      subst (IsPublished c w) (resume_session-resume_page carbonized moved access s named fresh)
        (resume_page-IsPublished s fresh plain)
