-- ===== src/Recovery/Choice.antt =====
-- `loadSession` of live-browser.js, `findAdoptableServerSession`, and the part of
-- `restoreSessionWithoutWrapper` that decides which session is resumed, up to the assignment to
-- `currentSessionId`.
pub mod Safe
use nafir.Base.{
  Bool, true, false, not, ◌&&◌, ◌||◌, Option, none, some, List, [], ◌∷◌, if◌then◌else◌, find?, Text,
  codes, is_empty, contains,
}
use nafir.Value.{Value, str, property, truthy, text_or_empty}
use nafir.Session.Browser.{Platform}
use nafir.Session.{Tab, load_session, clear_session, is_handled}
use nafir.Recovery.Summary.{
  Host, same_option, property?, or_else, page_matches_current, adoptable_session_phases,
  is_terminal_session_summary, find_active_session_summary, server_session_as_saved_shape,
}

-- `saved?.appRoot && APP_ROOT && saved.appRoot !== APP_ROOT`
abbrev pub is_foreign : Text → Option Value → Bool
is_foreign app_root saved =
    truthy (property? (codes "appRoot") saved)
    && not (is_empty app_root)
    && not (same_option (property? (codes "appRoot") saved) (some (str app_root)))

-- What is left of the cached session: one with an id is kept on the page that saved it only.
abbrev pub on_this_page : Host → Option Value → Option Value
on_this_page host cached =
    if truthy (property? (codes "id") cached)
      && not (page_matches_current host (property? (codes "pageUrl") cached))
    then none
    else cached

-- `savedState !== 'GENERATING' && savedState !== 'CYCLING'`, negated.
abbrev pub is_under_way : Host → Value → Bool
is_under_way host saved =
    contains (codes "GENERATING" ∷ codes "CYCLING" ∷ [])
      (host.upper (text_or_empty (property (codes "state") saved)))

-- The helper reports sessions, and none of them is this one.
abbrev pub is_unknown : Option (List Value) → Option Value → Bool
is_unknown (some (session ∷ sessions)) none = true
is_unknown _ _ = false

module _ (p : Platform) (host : Host) where
  -- A handled id is a text.
  unfoldable pub is_session_handled : Tab p → Option Value → Bool
  is_session_handled t (some (str id)) = is_handled p t id
  is_session_handled t _ = false

  unfoldable pub kept_or_cleared : Text → Tab p × Option Value → Tab p × Option Value
  kept_or_cleared app_root (t, saved) =
      if is_foreign app_root saved then (clear_session p t, none) else (t, saved)

  unfoldable pub load_own_session : Text → Tab p → Tab p × Option Value
  unfolding kept_or_cleared
  load_own_session app_root t = kept_or_cleared app_root (load_session p t)

  -- The test of `findAdoptableServerSession`.
  unfoldable pub is_adoptable : Tab p → Value → Bool
  is_adoptable t session =
      truthy (property (codes "id") session)
      && not (is_terminal_session_summary session)
      && not (is_session_handled t (property (codes "id") session))
      && truthy (property (codes "pageUrl") session)
      && page_matches_current host (property (codes "pageUrl") session)
      && truthy
          (or_else (property (codes "previewFile") session) (property (codes "sourceFile") session))
      && host.is_positive (property (codes "expectedVariants") session)
      && contains adoptable_session_phases (text_or_empty (property (codes "phase") session))

  unfoldable pub find_adoptable_server_session : Tab p → Option (List Value) → Option Value
  find_adoptable_server_session t none = none
  find_adoptable_server_session t (some sessions) = find? (is_adoptable t) sessions

  pub adopted : Option Value → Option Value
  adopted none = none
  adopted (some session) = some (server_session_as_saved_shape host session)

  -- The session to resume: the page's own one, or else one that the helper still has.
  pub candidate : Tab p → Option Value → Option (List Value) → Option Value
  unfolding adopted
  candidate t cached sessions =
      if truthy (property? (codes "id") cached)
      then cached
      else adopted (find_adoptable_server_session t sessions)

  -- The guards on it, and the helper's summary of it.
  pub resumed : Tab p → Option (List Value) → Option Value → Option (Value × Option Value)
  resumed t sessions none = none
  resumed t sessions (some saved) =
      let server = find_active_session_summary host saved sessions in
      if truthy (property (codes "id") saved)
        && not (is_session_handled t (property (codes "id") saved))
        && is_under_way host saved
        && not (is_unknown sessions server)
      then some (saved, server)
      else none

  unfoldable pub choose_session :
      Text → Tab p → Option (List Value) → Tab p × Option (Value × Option Value)
  unfolding resumed candidate load_own_session
  choose_session app_root t sessions =
      let (t', cached) = load_own_session app_root t in
      (t', resumed t' sessions (candidate t' (on_this_page host cached) sessions))
