-- ===== src/Recovery/Resume/Open.antt =====
-- `resumeSession` and `restoreFromActiveSessions` leave no handled session current.
use nafir.Base.{
  ◌≡◌, ◌⊎◌, inl, inr, Bool, true, false, Option, none, some, List, [], if◌then◌else◌, Text, codes,
  refl, sym, ◌∙◌, branch, branch_by,
}
use mathlib.Core.Path.{subst}
use nafir.Value.{Value, property}
use nafir.Session.Browser.{IsDocumented}
use nafir.Session.{Tab, read_handled_ids, is_handled}
use nafir.Session.Kept.{is_handled-same}
use nafir.Recovery.Choice.{load_own_session, choose_session}
use nafir.Recovery.Choice.Safe.{choose_session-IsRecoverable}
use nafir.Recovery.State.{resume}
use nafir.Recovery.Reload.{Access}
use nafir.Recovery.Resume.{
  Setting, Wrapper, Page, Mount, Scene, Effect, id_text, restored, restore,
  restore_session_without_wrapper, restore_from_active_sessions, supersede,
  restore_session_superseding_handled_wrapper, runtime_id,
}
use nafir.Recovery.Resume.Start.{
  resume_variants, resume_component, restore_or, resume_orphan, resume_framework, resume_page,
  resume_shown, resume_session,
}
use nafir.Recovery.Resume.Ids.{is_handled-id_text, load_own_session-ids}

module _ (c : Setting) (doc : IsDocumented c.platform) where
  -- The session that was current is current, or one that is not among the handled ids of the tab.
  unfoldable pub IsOpen : Tab c.platform → Text → Bool × Scene c × List Effect → Type 0
  IsOpen t before (done, s, out) =
      (s.current ≡ before) ⊎ (is_handled c.platform t s.current ≡ false)

  current-IsOpen :
      (t : Tab c.platform) (done : Bool) (s : Scene c) (out : List Effect)
      → IsOpen t s.current (done, s, out)
  unfolding IsOpen
  current-IsOpen t done s out = inl refl

  fresh-IsOpen :
      (t : Tab c.platform) (before : Text) (done : Bool) (s : Scene c) (out : List Effect)
      → is_handled c.platform t s.current ≡ false
      → IsOpen t before (done, s, out)
  unfolding IsOpen
  fresh-IsOpen t before done s out h = inr h

  -- A tab with the same handled ids.
  abbrev IsSame : Tab c.platform → Tab c.platform → Type 0
  IsSame t u = read_handled_ids c.platform u ≡ read_handled_ids c.platform t

  -- The same session is current and the handled ids are as they were, or a session is resumed that
  -- is not handled.
  IsSafe : Tab c.platform → Text → Bool × Scene c × List Effect → Type 0
  IsSafe t before (done, s, out) =
      ((s.current ≡ before) × IsSame t s.tab)
      ⊎ ((done ≡ true) × (is_handled c.platform t s.current ≡ false))

  same-IsSafe :
      (t : Tab c.platform) (done : Bool) (s : Scene c) (out : List Effect)
      → IsSame t s.tab
      → IsSafe t s.current (done, s, out)
  unfolding IsSafe
  same-IsSafe t done s out same = inl (refl, same)

  safe-IsOpen :
      (t : Tab c.platform) (before : Text) (r : Bool × Scene c × List Effect)
      → IsSafe t before r
      → IsOpen t before r
  unfolding IsSafe IsOpen
  safe-IsOpen t before (done, s, out) (inl h) = inl h.0
  safe-IsOpen t before (done, s, out) (inr h) = inr h.1

  choose_session-IsSame :
      (t : Tab c.platform) (s : Scene c) (sessions : Option (List Value))
      → IsSame t s.tab
      → IsSame t (choose_session c.platform c.host c.app_root s.tab sessions).0
  unfolding choose_session
  choose_session-IsSame t s sessions same =
      load_own_session-ids c.platform c.host doc c.app_root s.tab ∙ same

  restore-IsSafe :
      (t : Tab c.platform) (reason : Text) (sessions : Option (List Value)) (s : Scene c)
      (chosen : Option (Value × Option Value))
      → IsSame t s.tab
      → (choose_session c.platform c.host c.app_root s.tab sessions).1 ≡ chosen
      → IsSafe t s.current (
          restore c reason s
            ((choose_session c.platform c.host c.app_root s.tab sessions).0, chosen))
  unfolding IsSafe restore restored resume
  restore-IsSafe t reason sessions s none same e =
      inl (refl, choose_session-IsSame t s sessions same)
  restore-IsSafe t reason sessions s (some (saved, server)) same e =
      let open_ =
        choose_session-IsRecoverable c.platform c.host c.app_root s.tab sessions (saved, server)
          e in
      let loaded = (load_own_session c.platform c.host c.app_root s.tab).0 in
      let id = property (codes "id") saved in
      inr (
        refl,
        is_handled-same c.platform t loaded (id_text id)
              (sym (load_own_session-ids c.platform c.host doc c.app_root s.tab ∙ same))
            ∙ is_handled-id_text c.platform c.host loaded id
            ∙ open_.1,
      )

  restore_without-IsSafe :
      (t : Tab c.platform) (reason : Text) (sessions : Option (List Value)) (s : Scene c)
      → IsSame t s.tab
      → IsSafe t s.current (restore_session_without_wrapper c reason sessions s)
  unfolding restore_session_without_wrapper
  restore_without-IsSafe t reason sessions s same = restore-IsSafe t reason sessions s _ same refl

  supersede-IsSafe :
      (t : Tab c.platform) (id : Text) (s : Scene c) (saved : Option Value)
      → IsSame t s.tab
      → IsSafe t s.current (supersede c id s saved)
  unfolding supersede
  supersede-IsSafe t id s saved same =
      branch (IsSafe t s.current) _ (same-IsSafe t false s [] same) (
        branch (IsSafe t s.current) _ (same-IsSafe t true s [] same)
          (restore_without-IsSafe t _ none s same))

  superseding-IsSafe :
      (page : Page) (s : Scene c)
      → IsSafe s.tab s.current (restore_session_superseding_handled_wrapper c page s)
  unfolding restore_session_superseding_handled_wrapper
  superseding-IsSafe page s =
      branch (IsSafe s.tab s.current) _ (same-IsSafe s.tab false s [] refl) (
        supersede-IsSafe s.tab (runtime_id page) _ _
          (load_own_session-ids c.platform c.host doc c.app_root s.tab))

  restore_or-IsOpen :
      (t : Tab c.platform) (reason : Text) (clear : Tab c.platform → Tab c.platform) (s : Scene c)
      → IsSame t s.tab
      → IsOpen t s.current (restore_or c reason clear s)
  unfolding restore_or IsOpen
  restore_or-IsOpen t reason clear s same =
      let r = restore_session_without_wrapper c reason none s in
      let h : IsOpen t s.current r =
        safe-IsOpen t s.current r (restore_without-IsSafe t reason none s same) in
      branch (IsOpen t s.current) r.0 {r = (true, r.1, r.2)}
        {s = (false, record r.1 { tab = clear r.1.tab }, r.2)} h h

  module _ (t : Tab c.platform) (reason : Text) (s : Scene c) (same : IsSame t s.tab) where
    unhandled :
        (id : Text) → is_handled c.platform s.tab id ≡ false → is_handled c.platform t id ≡ false
    unhandled id fresh = is_handled-same c.platform t s.tab id (sym same) ∙ fresh

    orphan-IsOpen : (w : Wrapper) → IsOpen t s.current (resume_orphan c w s)
    unfolding resume_orphan IsOpen
    orphan-IsOpen w = restore_or-IsOpen t _ _ s same

    resume_framework-IsOpen :
        (w : Wrapper) (m : Option Mount)
        → is_handled c.platform s.tab w.variants ≡ false
        → IsOpen t s.current (resume_framework c w m s)
    unfolding resume_framework resume_component
    resume_framework-IsOpen w none fresh = orphan-IsOpen w
    resume_framework-IsOpen w (some m) fresh = branch (IsOpen t s.current) _ (orphan-IsOpen w) (
        branch (IsOpen t s.current) _ (current-IsOpen t true s [])
          (fresh-IsOpen t s.current true _ _ (unhandled w.variants fresh)))

    resume_page-IsOpen : (w : Option Wrapper) → IsOpen t s.current (resume_page c reason w s)
    unfolding resume_page resume_variants
    resume_page-IsOpen none = restore_or-IsOpen t _ _ s same
    resume_page-IsOpen (some w) =
        branch_by (IsOpen t s.current) _ (λ handled. current-IsOpen t false s [])
          (λ fresh.
            branch (IsOpen t s.current) _ (resume_framework-IsOpen w s.component fresh)
              (fresh-IsOpen t s.current true _ _ (unhandled w.variants fresh)))

    resume_shown-IsOpen :
        (page : Page) (moved : Bool) (access : Access)
        → IsOpen t s.current (resume_shown c reason page moved access s)
    unfolding resume_shown
    resume_shown-IsOpen page moved access =
        branch (IsOpen t s.current) _ (current-IsOpen t false (record s { reloads = _ }) [])
          (resume_page-IsOpen page.wrapper)

  resume_after-IsOpen :
      (t : Tab c.platform) (before : Text) (r : Bool × Scene c × List Effect) (reason : Text)
      (page : Page) (moved : Bool) (access : Access)
      → IsSafe t before r
      → IsOpen t before
          (if r.0 then (true, r.1, r.2) else resume_shown c reason page moved access r.1)
  unfolding IsSafe
  resume_after-IsOpen t before (true, s, out) reason page moved access h =
      safe-IsOpen t before (true, s, out) h
  resume_after-IsOpen t before (false, s, out) reason page moved access (inl h) =
      subst (λ (b : Text). IsOpen t b (resume_shown c reason page moved access s)) h.0
        (resume_shown-IsOpen t reason s h.1 page moved access)
  resume_after-IsOpen t before (false, s, out) reason page moved access (inr h) = cc

  restore_from_active_sessions-IsOpen :
      (page : Page) (sessions : Option (List Value)) (reason : Text) (s : Scene c)
      → IsOpen s.tab s.current (restore_from_active_sessions c page sessions reason s)
  unfolding restore_from_active_sessions
  restore_from_active_sessions-IsOpen page sessions reason s =
      branch (IsOpen s.tab s.current) _ (current-IsOpen s.tab false s []) (
        branch (IsOpen s.tab s.current) _ (current-IsOpen s.tab false s [])
          (safe-IsOpen s.tab s.current _ (restore_without-IsSafe s.tab _ sessions s refl)))

  -- Whatever the page shows and the storage and the helper hold, if the storage does with other keys
  -- what is documented: after `resumeSession`, and after `restoreFromActiveSessions`, the session
  -- that is current is the one that was, or one that was not among the handled ids of the tab.
  pub resume_session-IsOpen :
      (reason : Text) (page : Page) (moved : Bool) (access : Access)
      (sessions : Option (List Value)) (s : Scene c)
      → IsOpen s.tab s.current (resume_session c reason page moved access s)
        × IsOpen s.tab s.current (restore_from_active_sessions c page sessions reason s)
  unfolding resume_session
  resume_session-IsOpen reason page moved access sessions s = (
    resume_after-IsOpen s.tab s.current (restore_session_superseding_handled_wrapper c page s)
        reason page moved access (superseding-IsSafe page s),
    restore_from_active_sessions-IsOpen page sessions reason s,
  )
