-- ===== src/Recovery/Missed/Late.antt =====
-- An injection that is made late is for the session that the page still generates.
use nafir.Base.{
  ◌≡◌, Bool, true, false, not, ◌&&◌, ◌||◌, Option, none, some, List, if◌then◌else◌, find?, Text,
  text_eq, is_empty, text_eq_iff, arith, refl, Bool-cases, inl, inr, sym, ap, ◌∙◌,
}
use mathlib.Core.Path.{subst}
use nafir.Value.{Value, truthy}
use nafir.Recovery.Meta.{remember_session_file_meta}
use nafir.Recovery.Missed.{
  Progress, is_complete, recovery_file, is_session, is_completed, later, on_summary,
  recover_missed_generation_completion, recovery_due,
}

-- The helper reports the session with this id, completed and still open.
abbrev pub IsReported : Text → Option (List Value) → Type 0
IsReported id none = ⊥
IsReported id (some sessions) =
    (summary : Value) × (find? (is_session id) sessions ≡ some summary)
    × (is_completed summary ≡ true)

absurd-timer : {B : Type 0} {timer : Text × Value} → none ≡ some timer → B
absurd-timer h = cc

guard-none :
    {A : Type 0} (b : Bool) (x : Option A) (y : A)
    → (if b then x else none) ≡ some y
    → (b ≡ true) × (x ≡ some y)
guard-none true x y h = (refl, h)
guard-none false x y h = cc

guard-else :
    {A : Type 0} (b : Bool) (x : Option A) (y : A)
    → (if b then none else x) ≡ some y
    → (b ≡ false) × (x ≡ some y)
guard-else true x y h = cc
guard-else false x y h = (refl, h)

later-session :
    (id : Text) (file : Option Value) (timer : Text × Value)
    → later id file ≡ some timer
    → timer.0 ≡ id
unfolding later
later-session id none timer h = cc
later-session id (some file) timer h =
    let (full, same) = guard-none (truthy (some file)) (some (id, file)) timer h in
    let pair : timer ≡ (id, file) = cc in ap (λ x. x.0) pair

on_summary-timer :
    (s : Progress) (found : Option Value) (timer : Text × Value)
    → (on_summary s found).1 ≡ some timer
    → (timer.0 ≡ s.session)
      × ((summary : Value) × (found ≡ some summary) × (is_completed summary ≡ true))
unfolding on_summary
on_summary-timer s none timer h = cc
on_summary-timer s (some summary) timer h =
    elim (Bool-cases (is_completed summary && not (is_complete s))) [
      | inl go ↦
          let set : later s.session
                (recovery_file (remember_session_file_meta summary s.files) summary)
              ≡ some timer =
            rw go at h in
          (later-session s.session _ timer set, (summary, refl, ground (arith, go)))
      | inr stop ↦ let nothing : none ≡ some timer = rw stop at h in absurd-timer nothing
    ]

recover-timer :
    (s : Progress) (sessions : Option (List Value)) (timer : Text × Value)
    → (recover_missed_generation_completion s sessions).1 ≡ some timer
    → (timer.0 ≡ s.session) × IsReported s.session sessions
unfolding recover_missed_generation_completion
recover-timer s none timer h = cc
recover-timer s (some sessions) timer h =
    elim (Bool-cases (not (is_empty s.session) && s.generating)) [
      | inl go ↦ on_summary-timer s (find? (is_session s.session) sessions) timer (rw go at h)
      | inr stop ↦ let nothing : none ≡ some timer = rw stop at h in absurd-timer nothing
    ]

recovery_due-now :
    (s : Progress) (timer : Text × Value) (r : Text × Value)
    → recovery_due s timer ≡ some r
    → (r ≡ timer) × (timer.0 ≡ s.session) × (s.generating ≡ true) × (is_complete s ≡ false)
unfolding recovery_due
recovery_due-now s (id, file) r h =
    let away : Bool = not (text_eq id s.session) || not s.generating in
    let (here, rest) = guard-else away (if is_complete s then none else some (id, file)) r h in
    let (behind, same) = guard-else (is_complete s) (some (id, file)) r rest in
    let pair : r ≡ (id, file) = cc in
    let matches : text_eq id s.session ≡ true = ground (arith, here) in
    (pair, (text_eq_iff id s.session).0 matches, ground (arith, here), behind)

-- Variants are injected late only for a session that the helper reported as completed, not canceled
-- and not terminal when the page connected, and only if the page still generates that session, in
-- whatever state it is by then, and has not all of its variants.
pub recovery_due-IsReported :
    (s later_s : Progress) (sessions : Option (List Value)) (timer r : Text × Value)
    → (recover_missed_generation_completion s sessions).1 ≡ some timer
    → recovery_due later_s timer ≡ some r
    → IsReported r.0 sessions
      × (r.0 ≡ s.session)
      × (r.0 ≡ later_s.session)
      × (later_s.generating ≡ true)
      × (is_complete later_s ≡ false)
recovery_due-IsReported s later_s sessions timer r h due =
    let (own, reported) = recover-timer s sessions timer h in
    let (same, now, generating, behind) = recovery_due-now later_s timer r due in
    let first : r.0 ≡ s.session = ap (λ x. x.0) same ∙ own in
    (
      subst (λ id. IsReported id sessions) (sym first) reported,
      first,
      ap (λ x. x.0) same ∙ now,
      generating,
      behind,
    )
