-- ===== src/Recovery/Resume/Ids.antt =====
-- `loadSession` of live-browser.js leaves the handled ids as they are.
use nafir.Base.{◌≡◌, Option, none, some, Text, refl, ◌∙◌, branch}
use nafir.Value.{Value, str}
use nafir.Session.Browser.{Platform, IsDocumented}
use nafir.Session.{Tab, load_session, read_handled_ids, is_handled}
use nafir.Session.Kept.{read_handled_ids-load_session, read_handled_ids-clear_session}
use nafir.Recovery.Summary.{Host}
use nafir.Recovery.Choice.{is_foreign, kept_or_cleared, load_own_session, is_session_handled}
use nafir.Recovery.Resume.{id_text}

module _ (p : Platform) (host : Host) where
  pub is_handled-id_text :
      (t : Tab p) (v : Option Value) → is_handled p t (id_text v) ≡ is_session_handled p host t v
  unfolding is_session_handled is_handled
  is_handled-id_text t none = refl
  is_handled-id_text t (some (str id)) = refl
  is_handled-id_text t (some _) = refl

  kept_or_cleared-ids :
      IsDocumented p
      → (app_root : Text) (t : Tab p) (v : Option Value)
      → read_handled_ids p (kept_or_cleared p host app_root (t, v)).0 ≡ read_handled_ids p t
  unfolding kept_or_cleared
  kept_or_cleared-ids doc app_root t v =
      branch (λ (r : Tab p × Option Value). read_handled_ids p r.0 ≡ read_handled_ids p t)
        (is_foreign app_root v) (read_handled_ids-clear_session p doc t) refl

  pub load_own_session-ids :
      IsDocumented p
      → (app_root : Text) (t : Tab p)
      → read_handled_ids p (load_own_session p host app_root t).0 ≡ read_handled_ids p t
  unfolding load_own_session
  load_own_session-ids doc app_root t =
      kept_or_cleared-ids doc app_root (load_session p t).0 (load_session p t).1
      ∙ read_handled_ids-load_session p t
