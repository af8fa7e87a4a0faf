-- ===== src/Session/Kept.antt =====
-- The calls on the session record leave the handled ids as they are.
use nafir.Base.{
  ◌≡◌, ◌≢◌, [], ◌∷◌, arith, Text, refl, ap, codes, length, length-append, Option, none, some,
}
use nafir.Value.{Value, null}
use nafir.Session.Browser.{Platform, IsDocumented}
use nafir.Session.{
  session_key, handled_key, Tab, safe_read, raw_ids, read_handled_ids, is_handled, load_raw, loaded,
  load_session, clear_session,
}
use nafir.Session.Record.{safe_read-safe_remove_ne}

session_key-ne-handled_key : (prefix : Text) → session_key prefix ≢ handled_key prefix
session_key-ne-handled_key prefix e =
    omega (arith, ap length e, length-append (session_key prefix) (codes "-handled"))

module _ (p : Platform) where
  abbrev handled : Tab p → Option Text
  handled t = safe_read p t.store (handled_key t.prefix)

  handled-loaded : (t : Tab p) (v : Option Value) → handled (loaded p t v).0 ≡ handled t
  unfolding loaded
  handled-loaded t none = refl
  handled-loaded t (some null) = refl
  handled-loaded t (some v) = refl

  handled-load_raw : (t : Tab p) (raw : Option Text) → handled (load_raw p t raw).0 ≡ handled t
  unfolding load_raw
  handled-load_raw t none = refl
  handled-load_raw t (some []) = refl
  handled-load_raw t (some (c ∷ raw)) = handled-loaded t (p.parse (c ∷ raw))

  pub read_handled_ids-load_session :
      (t : Tab p) → read_handled_ids p (load_session p t).0 ≡ read_handled_ids p t
  unfolding read_handled_ids load_session
  read_handled_ids-load_session t = ap (raw_ids p) (handled-load_raw t _)

  pub read_handled_ids-clear_session :
      IsDocumented p → (t : Tab p) → read_handled_ids p (clear_session p t) ≡ read_handled_ids p t
  unfolding read_handled_ids clear_session
  read_handled_ids-clear_session doc t =
      ap (raw_ids p)
        (safe_read-safe_remove_ne p doc t.store _ _ (session_key-ne-handled_key t.prefix))

  pub is_handled-same :
      (t u : Tab p) (id : Text)
      → read_handled_ids p t ≡ read_handled_ids p u
      → is_handled p t id ≡ is_handled p u id
  unfolding is_handled
  is_handled-same t u id same = cc
