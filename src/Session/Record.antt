-- ===== src/Session/Record.antt =====
-- The session record: what `saveSession` writes, `loadSession` gives back.
use nafir.Base.{
  ℕ, ◌≡◌, ◌≢◌, true, max, [], ◌∷◌, Text, refl, codes, ◌∙◌, Option, some, Option-cases, inl, inr,
}
use nafir.Value.{Value, int, obj, Fields, property, put, truthy, get, get-put_self}
use nafir.Session.Browser.{Platform, IsDocumented}
use nafir.Session.{
  session_key, Tab, safe_read, safe_write, safe_remove, load_raw, loaded, load_session,
  save_session,
}
use nafir.Session.Handled.{Accepts, safe_read-safe_write_self}

-- The text that `saveSession` writes for a session.
abbrev pub stamped : ℕ → Fields → Value
stamped revision fs = obj (put (codes "checkpointRevision") (int revision) fs)

module _ (p : Platform) (doc : IsDocumented p) where
  pub safe_read-safe_write_ne :
      (s : p.Store) (k j v : Text) → k ≢ j → safe_read p (safe_write p s k v) j ≡ safe_read p s j
  unfolding safe_read safe_write
  safe_read-safe_write_ne s k j v ne = elim (Option-cases (p.set_item s k v)) [
    | inl thrown ↦ rw (thrown, safe_write)
    | inr (s', e) ↦ rw (e, safe_write) (rw (doc.get-set_ne s k j v ne e, safe_read))
  ]

  pub safe_read-safe_remove_ne :
      (s : p.Store) (k j : Text) → k ≢ j → safe_read p (safe_remove p s k) j ≡ safe_read p s j
  unfolding safe_read safe_remove
  safe_read-safe_remove_ne s k j ne = elim (Option-cases (p.remove_item s k)) [
    | inl thrown ↦ rw (thrown, safe_remove)
    | inr (s', e) ↦ rw (e, safe_remove) (rw (doc.get-remove_ne s k j ne e, safe_read))
  ]

  load_raw-parsed :
      (t : Tab p) (raw : Text) {v : Option Value}
      → raw ≢ []
      → p.parse raw ≡ v
      → load_raw p t (some raw) ≡ loaded p t v
  unfolding load_raw
  load_raw-parsed t [] ne e = absurd (ne refl)
  load_raw-parsed t (c ∷ raw) ne e = rw e

  store-save_session :
      (t : Tab p) (fs : Fields)
      → truthy (get (codes "id") fs) ≡ true
      → (save_session p t (some (obj fs))).store
        ≡ safe_write p t.store (session_key t.prefix) (p.stringify (stamped t.revision fs))
  unfolding save_session property
  store-save_session t fs id = rw id

  loaded-stamped :
      (t : Tab p) (n : ℕ) (fs : Fields)
      → loaded p t (some (stamped n fs))
        ≡ (record t { revision = max t.revision n }, some (stamped n fs))
  unfolding loaded property
  loaded-stamped t n fs = rw (get-put_self (codes "checkpointRevision") (int n) fs)

  -- A session with an id, saved by one tab, is what any tab with the same prefix loads from the
  -- storage afterwards: the same fields with the saving tab's revision, to which the loading tab's
  -- own revision is raised. The storage takes the write, and `JSON` round-trips the session.
  pub load-save_session :
      (t t' : Tab p) (fs : Fields)
      → truthy (get (codes "id") fs) ≡ true
      → Accepts p t.store (session_key t.prefix) (p.stringify (stamped t.revision fs))
      → p.parse (p.stringify (stamped t.revision fs)) ≡ some (stamped t.revision fs)
      → t'.prefix ≡ t.prefix
      → t'.store ≡ (save_session p t (some (obj fs))).store
      → load_session p t'
        ≡ (record t' { revision = max t'.revision t.revision }, some (stamped t.revision fs))
  unfolding load_session
  load-save_session t t' fs id a json same stored =
      let written = p.stringify (stamped t.revision fs) in
      let found : safe_read p t'.store (session_key t'.prefix) ≡ some written =
        rw (stored, store-save_session t fs id, same)
          (safe_read-safe_write_self p doc t.store (session_key t.prefix) written a) in
      rw found
        (load_raw-parsed t' written (doc.stringify-ne-nil _) json ∙ loaded-stamped t' t.revision fs)
