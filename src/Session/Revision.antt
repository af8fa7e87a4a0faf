-- ===== src/Session/Revision.antt =====
-- The checkpoint revision of live-browser-session.js never goes back.
use nafir.Base.{ℕ, ◌≤◌, ◌<◌, ◌^◌, ◌≡◌, Option, none, some, List, [], ◌∷◌, arith, Text, refl, codes}
use nafir.Value.{Value, null, bool, int, obj, property}
use nafir.Session.Browser.{Platform}
use nafir.Session.{
  plus_one, raise, Tab, others, write_handled_ids, remove_handled_ids, write_remaining, load_raw,
  load_session, loaded, save_session, clear_session, next_checkpoint_revision,
  seed_checkpoint_revision, mark_handled, clear_handled, write_scroll_y, clear_scroll_y,
}

raise-ge : (n : ℕ) (v : Option Value) → n ≤ raise n v
raise-ge n (some (int m)) = omega arith
raise-ge n (some null) = omega arith
raise-ge n (some (bool b)) = omega arith
raise-ge n _ = omega arith

plus_one-ge : (n : ℕ) → n ≤ plus_one n
unfolding plus_one
plus_one-ge n = ground arith

plus_one-gt : (n : ℕ) → n < 2 ^ 53 → n < plus_one n
unfolding plus_one
plus_one-gt n h = ground arith

module _ (p : Platform) where
  loaded-ge : (t : Tab p) (v : Option Value) → t.revision ≤ (loaded p t v).0.revision
  unfolding loaded
  loaded-ge t none = omega arith
  loaded-ge t (some null) = omega arith
  loaded-ge t (some v) = raise-ge t.revision (property (codes "checkpointRevision") v)

  load_raw-ge : (t : Tab p) (raw : Option Text) → t.revision ≤ (load_raw p t raw).0.revision
  unfolding load_raw
  load_raw-ge t none = omega arith
  load_raw-ge t (some []) = omega arith
  load_raw-ge t (some (c ∷ raw)) = loaded-ge t (p.parse (c ∷ raw))

  load_session-ge : (t : Tab p) → t.revision ≤ (load_session p t).0.revision
  unfolding load_session
  load_session-ge t = load_raw-ge t _

  revision-save_session :
      (t : Tab p) (v : Option Value) → (save_session p t v).revision ≡ t.revision
  unfolding save_session
  revision-save_session t (some (obj fs)) = ground arith
  revision-save_session t none = refl
  revision-save_session t (some null) = refl
  revision-save_session t _ = refl

  plus_one-le-next :
      (t : Tab p)
      → (plus_one t.revision ≤ (next_checkpoint_revision p t).1)
        × ((next_checkpoint_revision p t).1 ≡ (next_checkpoint_revision p t).0.revision)
  unfolding next_checkpoint_revision
  plus_one-le-next t =
      let bumped : Tab p = record t { revision = plus_one t.revision } in
      (
        omega (
          arith,
          load_session-ge bumped,
          revision-save_session (load_session p bumped).0 (load_session p bumped).1,
        ),
        refl,
      )

  -- The calls that a tab may make on its session state.
  pub data Call : Type 0 where
    load clear next : Call
    save : Option Value → Call
    seed : Option Value → Call
    mark : Text → Call
    unmark : Text → Call
    write_y : p.Number → Call
    clear_y : Call

  unfoldable pub step : Tab p → Call → Tab p
  step t load = (load_session p t).0
  step t clear = clear_session p t
  step t next = (next_checkpoint_revision p t).0
  step t (save v) = save_session p t v
  step t (seed v) = (seed_checkpoint_revision p t v).0
  step t (mark id) = mark_handled p t id
  step t (unmark id) = clear_handled p t id
  step t (write_y y) = write_scroll_y p t y
  step t clear_y = clear_scroll_y p t

  unfoldable pub run : Tab p → List Call → Tab p
  unfolding step
  run t [] = t
  run t (c ∷ cs) = run (step t c) cs

  revision-mark_handled : (t : Tab p) (id : Text) → (mark_handled p t id).revision ≡ t.revision
  unfolding mark_handled write_handled_ids
  revision-mark_handled t id = ground arith

  revision-write_remaining :
      (t : Tab p) (ids : List Text) → (write_remaining p t ids).revision ≡ t.revision
  unfolding write_remaining remove_handled_ids write_handled_ids
  revision-write_remaining t [] = refl
  revision-write_remaining t (_ ∷ _) = refl

  revision-clear_handled : (t : Tab p) (id : Text) → (clear_handled p t id).revision ≡ t.revision
  unfolding clear_handled remove_handled_ids
  revision-clear_handled t id = ground (arith, revision-write_remaining t (others p t id))

  step-ge : (t : Tab p) (c : Call) → t.revision ≤ (step t c).revision
  unfolding step
  step-ge t load = load_session-ge t
  step-ge t clear = unfold clear_session in omega arith
  step-ge t next = omega (arith, plus_one-ge t.revision, plus_one-le-next t)
  step-ge t (save v) = omega (arith, revision-save_session t v)
  step-ge t (seed v) = unfold seed_checkpoint_revision in raise-ge t.revision v
  step-ge t (mark id) = omega (arith, revision-mark_handled t id)
  step-ge t (unmark id) = omega (arith, revision-clear_handled t id)
  step-ge t (write_y y) = unfold write_scroll_y in omega arith
  step-ge t clear_y = unfold clear_scroll_y in omega arith

  run-ge : (t : Tab p) (cs : List Call) → t.revision ≤ (run t cs).revision
  unfolding run
  run-ge t [] = omega arith
  run-ge t (c ∷ cs) = omega (arith, step-ge t c, run-ge (step t c) cs)

  -- Whatever calls a tab makes between two calls of `nextCheckpointRevision`, the second returns a
  -- larger revision than the first, if the revision of the tab is below 2^53 before it.
  pub next_increases :
      (t : Tab p) (cs : List Call)
      → (run (next_checkpoint_revision p t).0 cs).revision < 2 ^ 53
      → (next_checkpoint_revision p t).1
        < (next_checkpoint_revision p (run (next_checkpoint_revision p t).0 cs)).1
  next_increases t cs h =
      let t' : Tab p = run (next_checkpoint_revision p t).0 cs in
      let low = run-ge (next_checkpoint_revision p t).0 cs in
      omega (arith, plus_one-le-next t, low, plus_one-gt t'.revision h, plus_one-le-next t')
