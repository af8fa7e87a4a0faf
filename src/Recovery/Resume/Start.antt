-- ===== src/Recovery/Resume/Start.antt =====
-- `resumeSession` of live-browser.js.
use nafir.Base.{
  ℕ, ◌==◌, Bool, true, false, not, ◌&&◌, ◌||◌, Option, none, some, List, [], ◌∷◌, ◌++◌,
  if◌then◌else◌, ltb, leb, Text, codes, is_empty, text_eq,
}
use nafir.Value.{Value, str}
use nafir.Session.{Tab, clear_session, clear_handled, is_handled}
use nafir.Recovery.Summary.{same_option, property?, or_else}
use nafir.Recovery.Meta.{is_framework_component_preview_mode}
use nafir.Recovery.Choice.{load_own_session}
use nafir.Recovery.State.{
  Outside, Choices, Counters, apply_saved_session_meta, number_of, or_number, first_index,
}
use nafir.Recovery.State.Save.{save_own_session}
use nafir.Recovery.Reload.{Access, schedule_handled_runtime_wrapper_reload}
use nafir.Recovery.Resume.{
  Setting, Wrapper, Page, Mount, Scene, Effect, live_state, show_bar, queue, send, track, observe,
  lock_scroll, hide_shader, restart_shader, finalize_insert, disable_edit, refresh_params,
  remove_wrapper, show_variant, settle_parameters, generating, cycling, runtime_id,
  restore_session_without_wrapper, restore_session_superseding_handled_wrapper,
}

-- `n > 0 && n <= max ? n : 0`
abbrev pub index_within : Option ℕ → Option ℕ → ℕ
index_within (some n) (some max) = if ltb 0 n && leb n max then n else 0
index_within _ _ = 0

-- `arrived >= expected && expected > 0`, and `arrived < expected`
abbrev pub is_reached : ℕ → Option ℕ → Bool
is_reached arrived none = false
is_reached arrived (some e) = leb e arrived && ltb 0 e

abbrev pub is_below : ℕ → Option ℕ → Bool
is_below arrived none = false
is_below arrived (some e) = ltb arrived e

abbrev pub is_saved : Option Value → Text → Bool
is_saved saved id = same_option (property? (codes "id") saved) (some (str id))

abbrev pub when : Bool → List Effect → List Effect
when true es = es
when false es = []

-- The counters for the variants that the wrapper holds.
unfoldable pub wrapper_counters : Outside → Option ℕ → ℕ → Option Value → Text → Counters
wrapper_counters o expected children saved id =
    let first = if ltb 0 children then 1 else 0 in
    let own = index_within (number_of o (property? (codes "visible") saved)) (some children) in
    record {
      expected = expected;
      arrived = some children;
      visible = if is_saved saved id then first_index own first else first;
    }

-- What the saved session of this wrapper sets.
abbrev pub wrapper_choices : Outside → Option Value → Text → Choices → Choices
wrapper_choices o saved id w =
    if is_saved saved id
    then (let v = apply_saved_session_meta o saved w in
        record v {
          action = or_else (property? (codes "action") saved) v.action;
          count = or_else (property? (codes "count") saved) v.count;
          insert_placeholder =
              or_else (property? (codes "insertPlaceholder") saved) v.insert_placeholder;
        })
    else w

-- `parameterGenerationState` is pending or loading.
abbrev pub is_unsettled : Option Value → Bool
is_unsettled v =
    same_option v (some (str (codes "pending"))) || same_option v (some (str (codes "loading")))

-- The checkpoints: the variants that are there are reported as progress, or else the resume is,
-- and with it that all variants are there.
unfoldable pub reported : Text → ℕ → Option ℕ → List Effect
reported reason arrived expected =
    if ltb 0 arrived && is_below arrived expected
    then send (codes "variants_progress") ∷ []
    else queue reason
      ∷ when (ltb 0 arrived && is_reached arrived expected) (send (codes "variants_ready") ∷ [])

-- What a resume with a wrapper does to the page and reports. The shader starts only if there is an
-- element for it.
unfoldable pub wrapper_effects : Text → Wrapper → Counters → Bool → List Effect
wrapper_effects reason w n unsettled =
    let arrived = ltb 0 w.children in
    when (is_reached w.children n.expected && unsettled) (settle_parameters w.variants ∷ [])
    ++ live_state (if arrived then cycling else generating)
      ∷ when (ltb 0 n.visible) (show_variant n.visible ∷ [])
    ++ show_bar (if arrived then codes "cycling" else codes "generating")
      ∷ track
      ∷ when arrived (
          hide_shader ∷ when w.inserts (finalize_insert ∷ []) ++ disable_edit ∷ refresh_params ∷ [])
    ++ reported reason w.children n.expected
    ++ observe ∷ lock_scroll ∷ when (not arrived) (restart_shader ∷ [])

-- `finalizeInsertSession`, of which the placeholder is a variable of a saved session.
abbrev pub without_placeholder : Choices → Choices
without_placeholder w = record w { insert_placeholder = none }

module _ (c : Setting) where
  -- The rest of `resumeSession` for a wrapper in the page, once the session is loaded.
  unfoldable pub resume_variants :
      Text → Wrapper → Tab c.platform × Option Value → Scene c → Bool × Scene c × List Effect
  resume_variants reason w (t, saved) s =
      let id = w.variants in
      let expected = c.parse_int (if is_empty w.count then codes "0" else w.count) in
      let counters = wrapper_counters c.outside expected w.children saved id in
      let loaded = wrapper_choices c.outside saved id s.choices in
      let arrived = ltb 0 w.children in
      let choices = if arrived && w.inserts then without_placeholder loaded else loaded in
      let state = if arrived then cycling else generating in
      (
        true,
        record s {
          tab = save_own_session c.platform c.outside.show (c.place state) id choices counters t;
          current = id;
          state = state;
          choices = choices;
          counters = counters;
          waits = not arrived && s.waits;
        },
        wrapper_effects reason w counters (is_unsettled loaded.parameter_state),
      )

  -- The same for a component that is mounted, whose variants are all there.
  unfoldable pub resume_component :
      Wrapper → Mount → Tab c.platform × Option Value → Scene c → Bool × Scene c × List Effect
  resume_component w m (t, saved) s =
      let id = w.variants in
      let n =
        or_number (c.number w.count) (or_number m.count (or_number s.counters.expected (some 1))) in
      let choices = apply_saved_session_meta c.outside saved s.choices in
      let own =
        if is_saved saved id
        then index_within (number_of c.outside (property? (codes "visible") saved)) n
        else 0 in
      let counters : Counters = record {
        expected = n;
        arrived = n;
        visible = first_index (index_within (some m.variant) n) (first_index own 1);
      } in
      (
        true,
        record s {
          tab = save_own_session c.platform c.outside.show (c.place cycling) id choices counters t;
          current = id;
          state = cycling;
          choices = choices;
          counters = counters;
        },
        live_state cycling
            ∷ hide_shader
            ∷ show_bar (codes "cycling")
            ∷ track
            ∷ refresh_params
            ∷ queue (codes "browser_resumed_svelte_component")
            ∷ [],
      )

  -- A session is restored without its wrapper, or the saved one is cleared.
  unfoldable pub restore_or :
      Text → (Tab c.platform → Tab c.platform) → Scene c → Bool × Scene c × List Effect
  restore_or reason clear s =
      let (done, s', out) = restore_session_without_wrapper c reason none s in
      if done then (true, s', out) else (false, record s' { tab = clear s'.tab }, out)

  -- The wrapper of a component that is not mounted is removed.
  unfoldable pub resume_orphan : Wrapper → Scene c → Bool × Scene c × List Effect
  resume_orphan w s =
      let (done, s', out) =
        restore_or (codes "browser_resumed_svelte_orphan_wrapper")
          (λ t. clear_handled c.platform (clear_session c.platform t) w.variants) s in
      (done, s', remove_wrapper ∷ out)

  -- A wrapper without children of its own: an orphan, still to be mounted, or mounted.
  unfoldable pub resume_framework : Wrapper → Option Mount → Scene c → Bool × Scene c × List Effect
  resume_framework w none s = resume_orphan w s
  resume_framework w (some m) s =
      if not (text_eq m.session w.variants)
      then resume_orphan w s
      else if m.variant == 0
      then (true, s, [])
      else resume_component w m (load_own_session c.platform c.host c.app_root s.tab) s

  unfoldable pub resume_page : Text → Option Wrapper → Scene c → Bool × Scene c × List Effect
  resume_page reason none s =
      restore_or (codes "browser_resumed_without_wrapper") (clear_session c.platform) s
  resume_page reason (some w) s =
      if is_handled c.platform s.tab w.variants
      then (false, s, [])
      else if is_framework_component_preview_mode w.preview
      then resume_framework w s.component s
      else resume_variants reason w (load_own_session c.platform c.host c.app_root s.tab) s

  -- What follows the restoring over a handled wrapper, which is reloaded if it is still there.
  unfoldable pub resume_shown : Text → Page → Bool → Access → Scene c → Bool × Scene c × List Effect
  resume_shown reason page moved access s =
      let id = runtime_id page in
      let superseded = moved || (not (is_empty s.current) && not (text_eq s.current id)) in
      let (reloads, r) =
        schedule_handled_runtime_wrapper_reload id (is_handled c.platform s.tab id) superseded
          access s.reloads in
      if reloads then (false, record s { reloads = r }, []) else resume_page reason page.wrapper s

  -- `resumeSession`; `moved` is whether `liveInteractionRevision` is not the revision given.
  unfoldable pub resume_session :
      Text → Page → Bool → Access → Scene c → Bool × Scene c × List Effect
  resume_session reason page moved access s =
      let (over, s', out) = restore_session_superseding_handled_wrapper c page s in
      if over then (true, s', out) else resume_shown reason page moved access s'
