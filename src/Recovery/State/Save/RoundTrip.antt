-- ===== src/Recovery/State/Save/RoundTrip.antt =====
-- What `saveSession` writes is what a page resumes with after a reload.
use nafir.Base.{
  ◌<◌, ◌≤◌, ◌||◌, ◌&&◌, ltb, branch_false, ℕ, zero, suc, ◌≡◌, Bool, true, false, Option, none, some,
  [], ◌∷◌, if◌then◌else◌, Text, codes, is_empty, text_eq, ap, refl, sym, ◌∙◌, arith,
}
use nafir.Value.{Value, str, int, obj, get, property, truthy}
use mathlib.Core.Path.{subst}
use nafir.Session.Browser.{Platform, IsDocumented}
use nafir.Session.{Tab, session_key, load_session, save_session}
use nafir.Session.Handled.{Accepts}
use nafir.Session.Record.{stamped, load-save_session}
use nafir.Recovery.State.Save.{save_own_session}
use nafir.Recovery.Summary.{or_else}
use nafir.Recovery.State.Bounds.{unless_zero}
use nafir.Recovery.Summary.{property?}
use nafir.Recovery.State.Save.{number_value}
use nafir.Recovery.State.{
  Resumed, apply_saved_session_meta, number_of, is_zero, first_index, clamp_variant_index,
  arrived_count, expected_count, visible_index, restored_counters, Choices, Counters, Outside,
  apply_meta, resume,
}
use nafir.Recovery.State.Save.Over.{over, IsSaveable}
use nafir.Recovery.State.Save.{session_entries, session_fields, Place}
use nafir.Recovery.State.Save.Applied.{
  else_value, lookup, stamp_key, Reads, stamped-Reads, property-saved, apply_meta-over,
}

-- At least one variant is expected and has arrived, and one of those that arrived is visible.
pub record IsComparing (c : Counters) : Type 0 where
  pub more_expected : ℕ
  pub more_arrived : ℕ
  pub expected : c.expected ≡ some (suc more_expected)
  pub arrived : c.arrived ≡ some (suc more_arrived)
  pub some_visible : 0 < c.visible
  pub visible : c.visible ≤ suc more_arrived

first_index-clamp :
    (n a : ℕ) (m : ℕ)
    → 0 < n
    → n ≤ suc a
    → first_index (clamp_variant_index (some n) (some (suc a))) m ≡ n
first_index-clamp zero a m h k = absurd (omega (arith, h))
first_index-clamp (suc n) a m h k =
    branch_false (λ (i : ℕ). first_index i m ≡ suc n)
      (ltb (suc n) 1 || (ltb 0 (suc a) && ltb (suc a) (suc n))) 0 (ground (arith, k)) refl

number_of-first :
    (o : Outside) (r w : Option Value) (n : ℕ)
    → r ≡ some (int (suc n))
    → number_of o (or_else r w) ≡ some (suc n)
number_of-first o r w n h = ap (λ (x : Option Value). number_of o (or_else x w)) h

unless_zero_and :
    (b : Bool) (r s : Option ℕ) (n : ℕ)
    → s ≡ some (suc n)
    → (if is_zero s && b then r else s) ≡ some (suc n)
unless_zero_and b r s n h = rw h refl

restored_counters-saved :
    (o : Outside) (b : Bool) (count : Option Value) (saved : Value) (server : Option Value)
    (c : Counters)
    → IsComparing c
    → property (codes "expected") saved ≡ number_value c.expected
    → property (codes "arrived") saved ≡ number_value c.arrived
    → property (codes "visible") saved ≡ some (int c.visible)
    → restored_counters o b count saved server ≡ c
unfolding restored_counters
restored_counters-saved o b count saved server c h expected arrived visible =
    let a = h.more_arrived in
    let arrived_is : arrived_count o b count saved server ≡ some (suc a) =
      unless_zero_and b _ _ a (number_of-first o _ _ a (arrived ∙ ap number_value h.arrived)) in
    let expected_is : expected_count o count saved server (arrived_count o b count saved server)
        ≡ some (suc h.more_expected) =
      unless_zero _ _ h.more_expected
        (number_of-first o _ _ h.more_expected (expected ∙ ap number_value h.expected)) in
    let later =
      first_index
        (clamp_variant_index (number_of o (property? (codes "visibleVariant") server))
          (some (suc a)))
        1 in
    let visible_is : visible_index o saved server (some (suc a)) (some (suc h.more_expected))
        ≡ c.visible =
      ap
        (λ (r : Option Value).
          first_index (clamp_variant_index (number_of o r) (some (suc a))) later)
        visible
      ∙ first_index-clamp c.visible a later h.some_visible h.visible in
    λ i. record {
      expected = (expected_is ∙ sym h.expected) i;
      arrived = (arrived_is ∙ sym h.arrived) i;
      visible = ((λ j. visible_index o saved server (arrived_is j) (expected_is j)) ∙ visible_is) i;
    }

-- What the tab resumes with.
pub record IsRestored (r : Resumed) (session : Text) (v : Choices) (c : Counters) : Type 0 where
  pub id : r.id ≡ some (str session)
  pub choices : r.choices ≡ v
  pub counters : r.counters ≡ c

resume-IsRestored :
    (o : Outside) (upper : Text → Text) (page : Place) (id : Text) (v w : Choices) (c : Counters)
    (saved : Value) (server : Option Value)
    → IsSaveable v
    → IsComparing c
    → Reads saved (session_entries o.show page id v c)
    → IsRestored
        (resume o upper (saved, server) w)
        id
        (over v (apply_saved_session_meta o server w))
        c
unfolding resume
resume-IsRestored o upper page id v w c saved server h comparing reads =
    let before = apply_saved_session_meta o server w in
    let after = apply_meta o saved before in
    let is : (k : Text) (x : Option Value)
        → text_eq stamp_key k ≡ false
        → lookup k (session_entries o.show page id v c) ≡ else_value x none
        → property k saved ≡ x =
      λ k x. property-saved saved (session_entries o.show page id v c) k x reads in
    record {
      id = is (codes "id") (some (str id)) refl refl;
      choices = apply_meta-over o page id v before c saved reads h;
      counters =
          restored_counters-saved o _ after.count saved server c comparing
            (is (codes "expected") (number_value c.expected) refl refl)
            (is (codes "arrived") (number_value c.arrived) refl refl)
            (is (codes "visible") (some (int c.visible)) refl refl);
    }

truthy-text : (s : Text) → is_empty s ≡ false → truthy (some (str s)) ≡ true
truthy-text [] h = cc
truthy-text (c ∷ s) h = refl

-- The session as it stands in the storage.
abbrev pub saved_value : Outside → Place → Text → Choices → Counters → ℕ → Value
saved_value o page id v c revision = stamped revision (session_fields o.show page id v c)

module _ (p : Platform) (doc : IsDocumented p) where
  -- A tab that compares variants saves its session; a tab with the same prefix that finds the
  -- storage so, as after a reload, loads a session with which it resumes: with the id, the three
  -- counters, and every saved variable as they were, or as the helper's summary and its own state
  -- have them where they were null. The storage takes the write, and `JSON` round-trips the session.
  pub resume-save_own_session :
      (o : Outside) (upper : Text → Text) (page : Place) (id : Text) (v w : Choices) (c : Counters)
      (server : Option Value) (t t' : Tab p)
      → is_empty id ≡ false
      → IsSaveable v
      → IsComparing c
      → Accepts p t.store
          (session_key t.prefix)
          (p.stringify (saved_value o page id v c t.revision))
      → p.parse (p.stringify (saved_value o page id v c t.revision))
        ≡ some (saved_value o page id v c t.revision)
      → t'.prefix ≡ t.prefix
      → t'.store ≡ (save_own_session p o.show page id v c t).store
      → ((load_session p t').1 ≡ some (saved_value o page id v c t.revision))
        × IsRestored
            (resume o upper (saved_value o page id v c t.revision, server) w)
            id
            (over v (apply_saved_session_meta o server w))
            c
  unfolding save_own_session get
  resume-save_own_session o upper page id v w c server t t' there saveable comparing accepts json
        same stored =
      let fs = session_fields o.show page id v c in
      let saved = stamped t.revision fs in
      let written : t'.store ≡ (save_session p t (some (obj fs))).store =
        subst (λ (b : Bool). t'.store ≡ (if b then t else save_session p t (some (obj fs))).store)
          there stored in
      (
        ap (λ (r : Tab p × Option Value). r.1)
            (load-save_session p doc t t' fs (truthy-text id there) accepts json same written),
        resume-IsRestored o upper page id v w c saved server saveable comparing
            (stamped-Reads t.revision (session_entries o.show page id v c)),
      )
