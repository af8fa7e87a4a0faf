-- ===== src/Session/Marks.antt =====
-- What `markHandled`, `isHandled` and `clearHandled` of live-browser-session.js promise.
use nafir.Base.{
  ◌+◌, ◌-◌, ◌≤◌, ◌<◌, ◌≡◌, ◌≢◌, true, false, not, List, [], ◌∷◌, ◌++◌, arith, Text, sym, ◌∙◌, All,
  All-append, length, length-drop, is_empty, text_eq, text_eq_iff, some,
}
use nafir.Session.Browser.{Platform, IsDocumented}
use nafir.Session.{
  last_8, handled_key, Tab, read_handled_ids, write_handled_ids, write_remaining, others,
  mark_handled, is_handled, clear_handled, safe_read,
}
use nafir.Session.Handled.{
  Accepts, ids_text, IsNonempty, contains-concat, contains-without_self, contains-without_ne,
  contains-last_8_self, last_8-concat, read-write_handled_ids, read-remove_handled_ids, raw_ids-All,
  All-filter, All-drop,
}

module _ (p : Platform) (doc : IsDocumented p) (t : Tab p) (id : Text) where
  -- The list that `markHandled` writes.
  abbrev pub marked : List Text
  marked = last_8 (others p t id ++ id ∷ [])

  read_handled_ids-All : All IsNonempty (read_handled_ids p t)
  unfolding read_handled_ids
  read_handled_ids-All = raw_ids-All p doc (safe_read p t.store (handled_key t.prefix))

  others-All : All IsNonempty (others p t id)
  others-All =
      All-filter IsNonempty (λ existing. not (text_eq existing id)) (read_handled_ids p t)
        read_handled_ids-All

  -- After a write that the storage takes, the ids are the old ones without `id`, then `id`, cut to
  -- the last eight.
  pub read-mark_handled :
      is_empty id ≡ false
      → Accepts p t.store (handled_key t.prefix) (ids_text p marked)
      → read_handled_ids p (mark_handled p t id) ≡ marked
  unfolding mark_handled
  read-mark_handled ne a = rw ne (
      read-write_handled_ids p doc t marked
        (All-drop IsNonempty (length (others p t id ++ id ∷ []) - 8) (others p t id ++ id ∷ [])
          (All-append IsNonempty (others p t id) (id ∷ []) others-All (ne, tt)))
        a)

  -- `read_handled_ids` depends on the prefix and the store alone.
  read-shared :
      (t' t'' : Tab p)
      → t'.prefix ≡ t''.prefix
      → t'.store ≡ t''.store
      → read_handled_ids p t' ≡ read_handled_ids p t''
  unfolding read_handled_ids
  read-shared t' t'' same stored = cc

  prefix-mark_handled : (mark_handled p t id).prefix ≡ t.prefix
  unfolding mark_handled write_handled_ids
  prefix-mark_handled = ground arith

  -- A marked id is handled for every tab with this prefix that reads the storage afterwards, a
  -- reloaded page's included, and the list then holds eight ids at most.
  pub is_handled-mark_handled :
      (t' : Tab p)
      → t'.prefix ≡ t.prefix
      → t'.store ≡ (mark_handled p t id).store
      → is_empty id ≡ false
      → Accepts p t.store (handled_key t.prefix) (ids_text p marked)
      → (is_handled p t' id ≡ true) × (length (read_handled_ids p t') ≤ 8)
  unfolding is_handled
  is_handled-mark_handled t' same stored ne a =
      let found = read-shared t' (mark_handled p t id) (same ∙ sym prefix-mark_handled) stored in
      rw (found, read-mark_handled ne a, ne)
        (
          contains-last_8_self (others p t id) id,
          omega (
            arith,
            length-drop (length (others p t id ++ id ∷ []) - 8) (others p t id ++ id ∷ []),
          ),
        )

  -- Another id stays as handled as it was, if the list had room: fewer than eight other ids.
  pub is_handled-mark_handled_ne :
      (j : Text)
      → j ≢ id
      → is_empty id ≡ false
      → length (others p t id) < 8
      → Accepts p t.store (handled_key t.prefix) (ids_text p marked)
      → is_handled p (mark_handled p t id) j ≡ is_handled p t j
  unfolding is_handled
  is_handled-mark_handled_ne j differ ne room a =
      let cut : length (others p t id) + 1 - 8 ≡ 0 = omega arith in
      rw (read-mark_handled ne a, last_8-concat (others p t id) id, cut)
        (ground (
          arith,
          contains-concat (others p t id) id j,
          contains-without_ne id j (read_handled_ids p t) differ,
          text_eq_iff j id,
        ))

  -- The storage takes what `clearHandled` does: a write of the ids left, or a removal.
  abbrev pub Clears : List Text → Type 0
  Clears [] = (s' : p.Store) × (p.remove_item t.store (handled_key t.prefix) ≡ some s')
  Clears (i ∷ is) = Accepts p t.store (handled_key t.prefix) (ids_text p (i ∷ is))

  read-write_remaining :
      (ids : List Text)
      → All IsNonempty ids
      → Clears ids
      → read_handled_ids p (write_remaining p t ids) ≡ ids
  unfolding write_remaining
  read-write_remaining [] h (s', e) = read-remove_handled_ids p doc t e
  read-write_remaining (i ∷ is) h a = read-write_handled_ids p doc t (i ∷ is) h a

  -- A cleared id is no longer handled, and every other id is as handled as before.
  pub is_handled-clear_handled :
      (j : Text)
      → is_empty id ≡ false
      → Clears (others p t id)
      → (is_handled p (clear_handled p t id) id ≡ false)
        × (j ≢ id → is_handled p (clear_handled p t id) j ≡ is_handled p t j)
  unfolding is_handled clear_handled
  is_handled-clear_handled j ne a =
      rw (ne, read-write_remaining (others p t id) others-All a)
        (
          contains-without_self id (read_handled_ids p t),
          λ differ. rw (contains-without_ne id j (read_handled_ids p t) differ),
        )
