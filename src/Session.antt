-- ===== src/Session.antt =====
-- live-browser-session.js: the durable session record, the ids of handled sessions and the scroll
-- position that one tab keeps in `localStorage`.
pub mod Browser
pub mod Record
pub mod Revision
pub mod Handled
pub mod Marks
pub mod Kept
pub mod Scroll
pub mod Tests
use nafir.Base.{
  ℕ, ◌+◌, ◌-◌, ◌/◌, ◌%◌, ◌^◌, max, ltb, ◌==◌, Bool, true, false, not, ◌&&◌, Option, none, some,
  List, [], ◌∷◌, ◌++◌, map, if◌then◌else◌, length, drop, filter, Text, codes, is_empty, text_eq,
  contains,
}
use nafir.Value.{
  Value, null, bool, int, neg, other, str, arr, obj, Items, Fields, put, property, truthy, elements,
  items,
}
use nafir.Session.Browser.{Platform}

-- `typeof id === 'string' && id`, for one element of a parsed array.
abbrev pub nonempty_strings : List Value → List Text
nonempty_strings [] = []
nonempty_strings (str (c ∷ t) ∷ vs) = (c ∷ t) ∷ nonempty_strings vs
nonempty_strings (_ ∷ vs) = nonempty_strings vs

-- `Math.max(revision, v)` where `v` is an integer; anything else leaves it.
abbrev pub raise : ℕ → Option Value → ℕ
raise n (some (int m)) = max n m
raise n _ = n

-- `n + 1` of a number that holds an integer: from 2^53 on only every second integer is a number, and
-- the sum is rounded to the one of its neighbours with an even half, from 2^54 on to `n`.
unfoldable pub plus_one : ℕ → ℕ
plus_one n =
    if ltb n (2 ^ 53) then n + 1 else if ltb n (2 ^ 54) && ((n / 2) % 2 == 1) then n + 2 else n

-- `...slice(-8)`
abbrev pub last_8 : List Text → List Text
last_8 ids = drop (length ids - 8) ids

-- The keys of `createLiveBrowserSessionState`, for a prefix that is not empty.
abbrev pub session_key : Text → Text
session_key prefix = prefix ++ codes "-session"

abbrev pub handled_key : Text → Text
handled_key prefix = session_key prefix ++ codes "-handled"

abbrev pub scroll_key : Text → Text
scroll_key prefix = session_key prefix ++ codes "-scroll"

module _ (p : Platform) where
  open p use {Store, Number, get_item, set_item, remove_item, parse, stringify, show, parse_float}

  -- What the closure of one tab holds: the counter, and the store that all tabs share.
  pub record Tab : Type 0 where
    pub prefix : Text
    pub owner : Text
    pub revision : ℕ
    pub store : Store

  -- `createLiveBrowserSessionState`; an empty prefix throws.
  pub create : Text → Text → Store → Option Tab
  create prefix owner store =
      if is_empty prefix
      then none
      else some (record { prefix = prefix; owner = owner; revision = 0; store = store })

  -- `safeRead`, `safeWrite` and `safeRemove` swallow what the storage throws.
  pub safe_read : Store → Text → Option Text
  safe_read s k = elim (get_item s k) [ some found ↦ found | none ↦ none ]

  pub safe_write : Store → Text → Text → Store
  safe_write s k v = elim (set_item s k v) [ some s' ↦ s' | none ↦ s ]

  pub safe_remove : Store → Text → Store
  safe_remove s k = elim (remove_item s k) [ some s' ↦ s' | none ↦ s ]

  -- The part of `loadSession` after a text that is not empty was read; `null.checkpointRevision`
  -- throws, and is caught.
  loaded : Tab → Option Value → Tab × Option Value
  loaded t none = (t, none)
  loaded t (some null) = (t, none)
  loaded t (some v) =
      (record t { revision = raise t.revision (property (codes "checkpointRevision") v) }, some v)

  -- `if (!raw) return null`
  load_raw : Tab → Option Text → Tab × Option Value
  unfolding loaded
  load_raw t none = (t, none)
  load_raw t (some []) = (t, none)
  load_raw t (some raw) = loaded t (parse raw)

  unfoldable pub load_session : Tab → Tab × Option Value
  unfolding load_raw safe_read
  load_session t = load_raw t (safe_read t.store (session_key t.prefix))

  -- Only an object can have an `id`.
  unfoldable pub save_session : Tab → Option Value → Tab
  unfolding safe_write
  save_session t (some (obj fs)) =
      if truthy (property (codes "id") (obj fs))
      then (record t {
        store =
            safe_write t.store (session_key t.prefix)
              (stringify (obj (put (codes "checkpointRevision") (int t.revision) fs)));
      })
      else t
  save_session t _ = t

  pub clear_session : Tab → Tab
  unfolding safe_remove
  clear_session t = record t { store = safe_remove t.store (session_key t.prefix) }

  -- `saveSession` itself leaves a session with no id alone, as the guard `existing?.id` does.
  pub next_checkpoint_revision : Tab → Tab × ℕ
  unfolding load_session save_session
  next_checkpoint_revision t =
      let (t', existing) = load_session (record t { revision = plus_one t.revision }) in
      let saved = save_session t' existing in (saved, saved.revision)

  pub seed_checkpoint_revision : Tab → Option Value → Tab × ℕ
  seed_checkpoint_revision t v =
      let t' : Tab = record t { revision = raise t.revision v } in (t', t'.revision)

  pub current_checkpoint_revision : Tab → ℕ
  current_checkpoint_revision t = t.revision

  -- The value stored under the handled key, once parsed; a legacy value is the id itself.
  parsed_ids : Text → Option Value → List Text
  parsed_ids raw (some (arr vs)) = nonempty_strings (elements vs)
  parsed_ids raw (some (str (c ∷ t))) = (c ∷ t) ∷ []
  parsed_ids raw _ = raw ∷ []

  pub raw_ids : Option Text → List Text
  unfolding parsed_ids
  raw_ids none = []
  raw_ids (some []) = []
  raw_ids (some raw) = parsed_ids raw (parse raw)

  unfoldable pub read_handled_ids : Tab → List Text
  unfolding safe_read raw_ids
  read_handled_ids t = raw_ids (safe_read t.store (handled_key t.prefix))

  -- `JSON.stringify` of an array of strings, written under the handled key.
  pub write_handled_ids : Tab → List Text → Tab
  unfolding safe_write
  write_handled_ids t ids = record t {
    store = safe_write t.store (handled_key t.prefix) (stringify (arr (items (map str ids))));
  }

  pub remove_handled_ids : Tab → Tab
  unfolding safe_remove
  remove_handled_ids t = record t { store = safe_remove t.store (handled_key t.prefix) }

  abbrev pub others : Tab → Text → List Text
  others t id = filter (λ existing. not (text_eq existing id)) (read_handled_ids t)

  pub mark_handled : Tab → Text → Tab
  mark_handled t id =
      if is_empty id then t else write_handled_ids t (last_8 (others t id ++ id ∷ []))

  unfoldable pub is_handled : Tab → Text → Bool
  is_handled t id = not (is_empty id) && contains (read_handled_ids t) id

  -- The guard `remaining.length > 0` of `clearHandled`.
  write_remaining : Tab → List Text → Tab
  write_remaining t [] = remove_handled_ids t
  write_remaining t (id ∷ ids) = write_handled_ids t (id ∷ ids)

  pub clear_handled : Tab → Text → Tab
  unfolding write_remaining
  clear_handled t id = if is_empty id then remove_handled_ids t else write_remaining t (others t id)

  pub write_scroll_y : Tab → Number → Tab
  unfolding safe_write
  write_scroll_y t y = record t { store = safe_write t.store (scroll_key t.prefix) (show y) }

  pub read_scroll_y : Tab → Option Number
  unfolding safe_read
  read_scroll_y t = elim (safe_read t.store (scroll_key t.prefix)) [
    | none ↦ none
    | some raw ↦ parse_float raw
  ]

  pub clear_scroll_y : Tab → Tab
  unfolding safe_remove
  clear_scroll_y t = record t { store = safe_remove t.store (scroll_key t.prefix) }
