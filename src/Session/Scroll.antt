-- ===== src/Session/Scroll.antt =====
-- The scroll position: no call on the session record or on the handled ids disturbs it.
use nafir.Base.{
  ◌≡◌, ◌≢◌, List, [], ◌∷◌, ◌++◌, arith, Text, refl, ap, codes, sym, ◌∙◌, is_empty, All, length,
  length-append, Option, none, some, Bool-cases, inl, inr,
}
use nafir.Value.{Value, null, obj, property, truthy}
use nafir.Session.Browser.{Platform, IsDocumented}
use nafir.Session.{
  plus_one, last_8, session_key, handled_key, scroll_key, Tab, safe_read, load_raw, loaded,
  load_session, save_session, clear_session, next_checkpoint_revision, seed_checkpoint_revision,
  write_handled_ids, remove_handled_ids, write_remaining, others, mark_handled, clear_handled,
  read_scroll_y, write_scroll_y, clear_scroll_y,
}
use nafir.Session.Handled.{Accepts, safe_read-safe_write_self}
use nafir.Session.Revision.{
  Call, load, clear, next, save, seed, mark, unmark, write_y, clear_y, step, run,
}
use nafir.Session.Record.{safe_read-safe_write_ne, safe_read-safe_remove_ne}

session_key-ne-scroll_key : (prefix : Text) → session_key prefix ≢ scroll_key prefix
session_key-ne-scroll_key prefix e =
    omega (arith, ap length e, length-append (session_key prefix) (codes "-scroll"))

handled_key-ne-scroll_key : (prefix : Text) → handled_key prefix ≢ scroll_key prefix
handled_key-ne-scroll_key prefix e = omega (
  arith,
  ap length e,
  length-append (session_key prefix) (codes "-scroll"),
  length-append (session_key prefix) (codes "-handled"),
)

module _ (p : Platform) (doc : IsDocumented p) where
  -- The scroll text that a reload finds.
  abbrev scroll : Tab p → Option Text
  scroll t = safe_read p t.store (scroll_key t.prefix)

  scroll-save_session : (t : Tab p) (v : Option Value) → scroll (save_session p t v) ≡ scroll t
  unfolding save_session
  scroll-save_session t (some (obj fs)) =
      elim (Bool-cases (truthy (property (codes "id") (obj fs)))) [
        | inl e ↦
            rw e (safe_read-safe_write_ne p doc t.store _ _ _ (session_key-ne-scroll_key t.prefix))
        | inr e ↦ rw e
      ]
  scroll-save_session t none = refl
  scroll-save_session t (some null) = refl
  scroll-save_session t _ = refl

  scroll-loaded : (t : Tab p) (v : Option Value) → scroll (loaded p t v).0 ≡ scroll t
  unfolding loaded
  scroll-loaded t none = refl
  scroll-loaded t (some null) = refl
  scroll-loaded t (some v) = refl

  scroll-load_raw : (t : Tab p) (raw : Option Text) → scroll (load_raw p t raw).0 ≡ scroll t
  unfolding load_raw
  scroll-load_raw t none = refl
  scroll-load_raw t (some []) = refl
  scroll-load_raw t (some (c ∷ raw)) = scroll-loaded t (p.parse (c ∷ raw))

  scroll-load_session : (t : Tab p) → scroll (load_session p t).0 ≡ scroll t
  unfolding load_session
  scroll-load_session t = scroll-load_raw t (safe_read p t.store (session_key t.prefix))

  scroll-write_handled_ids :
      (t : Tab p) (ids : List Text) → scroll (write_handled_ids p t ids) ≡ scroll t
  unfolding write_handled_ids
  scroll-write_handled_ids t ids =
      safe_read-safe_write_ne p doc t.store _ _ _ (handled_key-ne-scroll_key t.prefix)

  scroll-remove_handled_ids : (t : Tab p) → scroll (remove_handled_ids p t) ≡ scroll t
  unfolding remove_handled_ids
  scroll-remove_handled_ids t =
      safe_read-safe_remove_ne p doc t.store _ _ (handled_key-ne-scroll_key t.prefix)

  scroll-write_remaining :
      (t : Tab p) (ids : List Text) → scroll (write_remaining p t ids) ≡ scroll t
  unfolding write_remaining
  scroll-write_remaining t [] = scroll-remove_handled_ids t
  scroll-write_remaining t (i ∷ is) = scroll-write_handled_ids t (i ∷ is)

  scroll-mark_handled : (t : Tab p) (id : Text) → scroll (mark_handled p t id) ≡ scroll t
  unfolding mark_handled
  scroll-mark_handled t id = elim (Bool-cases (is_empty id)) [
    | inl e ↦ rw e
    | inr e ↦ rw e (scroll-write_handled_ids t (last_8 (others p t id ++ id ∷ [])))
  ]

  scroll-clear_handled : (t : Tab p) (id : Text) → scroll (clear_handled p t id) ≡ scroll t
  unfolding clear_handled
  scroll-clear_handled t id = elim (Bool-cases (is_empty id)) [
    | inl e ↦ rw e (scroll-remove_handled_ids t)
    | inr e ↦ rw e (scroll-write_remaining t (others p t id))
  ]

  -- The calls that are about the scroll position.
  abbrev pub KeepsScroll : Call p → Type 0
  KeepsScroll (write_y y) = ⊥
  KeepsScroll clear_y = ⊥
  KeepsScroll _ = Unit

  scroll-step : (t : Tab p) (c : Call p) → KeepsScroll c → scroll (step p t c) ≡ scroll t
  unfolding step
  scroll-step t load k = scroll-load_session t
  scroll-step t clear k =
      unfold clear_session in
      safe_read-safe_remove_ne p doc t.store _ _ (session_key-ne-scroll_key t.prefix)
  scroll-step t next k =
      unfold next_checkpoint_revision in
      scroll-save_session _ _ ∙ scroll-load_session (record t { revision = plus_one t.revision })
  scroll-step t (save v) k = scroll-save_session t v
  scroll-step t (seed v) k = unfold seed_checkpoint_revision in refl
  scroll-step t (mark id) k = scroll-mark_handled t id
  scroll-step t (unmark id) k = scroll-clear_handled t id
  scroll-step t (write_y y) k = absurd k
  scroll-step t clear_y k = absurd k

  prefix-load_raw : (t : Tab p) (raw : Option Text) → (load_raw p t raw).0.prefix ≡ t.prefix
  unfolding load_raw loaded
  prefix-load_raw t none = refl
  prefix-load_raw t (some []) = refl
  prefix-load_raw t (some (c ∷ raw)) = ground arith

  prefix-load_session : (t : Tab p) → (load_session p t).0.prefix ≡ t.prefix
  unfolding load_session
  prefix-load_session t = prefix-load_raw t _

  prefix-save_session : (t : Tab p) (v : Option Value) → (save_session p t v).prefix ≡ t.prefix
  unfolding save_session
  prefix-save_session t (some (obj fs)) = ground arith
  prefix-save_session t none = refl
  prefix-save_session t (some null) = refl
  prefix-save_session t _ = refl

  prefix-write_remaining :
      (t : Tab p) (ids : List Text) → (write_remaining p t ids).prefix ≡ t.prefix
  unfolding write_remaining remove_handled_ids write_handled_ids
  prefix-write_remaining t [] = refl
  prefix-write_remaining t (_ ∷ _) = refl

  prefix-step : (t : Tab p) (c : Call p) → (step p t c).prefix ≡ t.prefix
  unfolding step
  prefix-step t load = prefix-load_session t
  prefix-step t clear = unfold clear_session in refl
  prefix-step t next =
      unfold next_checkpoint_revision in
      prefix-save_session _ _ ∙ prefix-load_session (record t { revision = plus_one t.revision })
  prefix-step t (save v) = prefix-save_session t v
  prefix-step t (seed v) = unfold seed_checkpoint_revision in refl
  prefix-step t (mark id) = unfold mark_handled write_handled_ids in ground arith
  prefix-step t (unmark id) =
      unfold clear_handled remove_handled_ids in
      ground (arith, prefix-write_remaining t (others p t id))
  prefix-step t (write_y y) = unfold write_scroll_y in refl
  prefix-step t clear_y = unfold clear_scroll_y in refl

  scroll-run :
      (t : Tab p) (cs : List (Call p))
      → All KeepsScroll cs
      → ((run p t cs).prefix ≡ t.prefix) × (scroll (run p t cs) ≡ scroll t)
  unfolding run
  scroll-run t [] k = (refl, refl)
  scroll-run t (c ∷ cs) k =
      let (same, kept) = scroll-run (step p t c) cs k.1 in
      (same ∙ prefix-step t c, kept ∙ scroll-step t c k.0)

  scroll-write_scroll_y :
      (t : Tab p) (y : p.Number)
      → Accepts p t.store (scroll_key t.prefix) (p.show y)
      → scroll (write_scroll_y p t y) ≡ some (p.show y)
  unfolding write_scroll_y
  scroll-write_scroll_y t y a = safe_read-safe_write_self p doc t.store _ _ a

  -- The scroll position that was written is what is read back after any calls that are not about
  -- it, by any tab with the same prefix on the storage they leave: none of them clobbers it. The
  -- storage takes the write, and `parseFloat` reads what `String` shows of the number.
  pub read_scroll_y-run :
      (t t' : Tab p) (y : p.Number) (cs : List (Call p))
      → Accepts p t.store (scroll_key t.prefix) (p.show y)
      → p.parse_float (p.show y) ≡ some y
      → All KeepsScroll cs
      → t'.prefix ≡ t.prefix
      → t'.store ≡ (run p (write_scroll_y p t y) cs).store
      → read_scroll_y p t' ≡ some y
  unfolding read_scroll_y
  read_scroll_y-run t t' y cs a shown keep same stored =
      let written : Tab p = write_scroll_y p t y in
      let (kept_prefix, kept) = scroll-run written cs keep in
      let prefixes : t'.prefix ≡ (run p written cs).prefix =
        same ∙ sym (unfold write_scroll_y in kept_prefix) in
      let found : safe_read p t'.store (scroll_key t'.prefix) ≡ some (p.show y) =
        rw (stored, prefixes) (kept ∙ scroll-write_scroll_y t y a) in
      rw (found, read_scroll_y) shown
