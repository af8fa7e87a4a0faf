-- ===== src/Target/Tab/Events/Ledger.antt =====
-- What noting a status leaves of the rule that a tab acts on one target at a time, and the ways
-- through the guards of a handler.
use nafir.Base.{
  ℕ, suc, zero, ◌≡◌, Bool, true, false, not, ◌&&◌, Option, none, some, List, [], ◌∷◌, map, length,
  drop, any, any-append, ltb, arith, refl, Text, text_eq, text_eq_refl, Bool-cases, Option-cases,
  inl, inr,
}
use nafir.Target.Resolve.{Element, Page, Message, Miss, Resolution, found, missed}
use nafir.Target.Tab.{
  Tab, Status, acting, is_acting, is_other, has, overwrite, set, trim_ledger, note_agent_target,
  other_acting, agent_target_busy_reason, Reason, Effect, unless_busy, with_element, guarded,
  decline_agent_target_busy, report_agent_target_unresolvable,
}

module _ {A : Type 0} where
  any-drop : (p : A → Bool) (n : ℕ) (xs : List A) → any p xs ≡ false → any p (drop n xs) ≡ false
  any-drop p zero xs h = h
  any-drop p (suc n) [] h = refl
  any-drop p (suc n) (x ∷ xs) h = any-drop p n xs (ground (arith, h))

  -- Entries of which `p` holds under the key `k` only.
  abbrev elsewhere : (Text × A → Bool) → Text → Text × A → Bool
  elsewhere p k e = p e && not (text_eq e.0 k)

  any-overwrite :
      (p : Text × A → Bool) (k : Text) (v : A) (es : List (Text × A))
      → p (k, v) ≡ false
      → any (elsewhere p k) es ≡ false
      → any p (map (overwrite k v) es) ≡ false
  unfolding overwrite
  any-overwrite p k v [] new old = refl
  any-overwrite p k v ((j, w) ∷ es) new old = ground (arith, new, old, any-overwrite p k v es new)

  any-no_key :
      (p : Text × A → Bool) (k : Text) (es : List (Text × A))
      → has k es ≡ false
      → any (elsewhere p k) es ≡ false
      → any p es ≡ false
  unfolding has
  any-no_key p k [] free old = refl
  any-no_key p k ((j, w) ∷ es) free old = ground (arith, free, old, any-no_key p k es)

  pub any-set :
      (p : Text × A → Bool) (k : Text) (v : A) (es : List (Text × A))
      → p (k, v) ≡ false
      → any (elsewhere p k) es ≡ false
      → any p (set k v es) ≡ false
  unfolding set
  any-set p k v es new old = elim (Bool-cases (has k es)) [
    | inl here ↦ rw (here, set) (any-overwrite p k v es new old)
    | inr free ↦
        rw (free, set)
          (rw (any-append p es ((k, v) ∷ [])) (ground (arith, new, any-no_key p k es free old)))
  ]

  pub any-elsewhere :
      (p : Text × A → Bool) (k : Text) (es : List (Text × A))
      → any p es ≡ false
      → any (elsewhere p k) es ≡ false
  any-elsewhere p k [] h = refl
  any-elsewhere p k (e ∷ es) h = ground (arith, h, any-elsewhere p k es)

-- The tab is connected, and acts on no target but `a`.
abbrev pub IsOn : Text → Tab → Type 0
IsOn a t = (t.connected ≡ true) × (other_acting (some a) t.seen ≡ false)

abbrev pub blocks : Text → Text × Status → Bool
blocks a e = is_acting e.1 && is_other (some a) e.0

pub any-trim :
    (p : Text × Status → Bool) (es : List (Text × Status))
    → any p es ≡ false
    → any p (trim_ledger es) ≡ false
any-trim p es h = elim (Bool-cases (ltb 100 (length es))) [
  | inl full ↦ rw full (any-drop p 1 es h)
  | inr room ↦ rw room h
]

-- Noting a status other than acting, or acting under `a`, keeps the invariant.
pub note-IsOn :
    (a : Text) (t : Tab) (id : Text) (s : Status)
    → blocks a (id, s) ≡ false
    → IsOn a t
    → IsOn a (note_agent_target t id s)
unfolding note_agent_target other_acting
note-IsOn a t id s new (on, h) = (
  on,
  any-trim (blocks a) (set id s t.seen)
      (any-set (blocks a) id s t.seen new (any-elsewhere (blocks a) id t.seen h)),
)

-- Acting on a target and leaving it at once keeps the invariant.
pub note_twice-IsOn :
    (a : Text) (t : Tab) (id : Text) (s : Status)
    → is_acting s ≡ false
    → IsOn a t
    → IsOn a (note_agent_target (note_agent_target t id acting) id s)
unfolding note_agent_target other_acting
note_twice-IsOn a t id s new (on, h) =
    let others = elsewhere (blocks a) id in
    let once = trim_ledger (set id acting t.seen) in
    let kept : any others once ≡ false = any-trim others (set id acting t.seen) (
      any-set others id acting t.seen (ground (arith, text_eq_refl id))
        (any-elsewhere others id t.seen (any-elsewhere (blocks a) id t.seen h))) in
    (
      on,
      any-trim (blocks a) (set id s once) (any-set (blocks a) id s once (ground (arith, new)) kept),
    )

pub with_element-cases :
    (P : Tab × List Effect → Type 0) (t : Tab) (msg : Message)
    (body : Element → ℕ → Tab × List Effect) (r : Resolution)
    → ((miss : Miss) → P (report_agent_target_unresolvable t msg miss))
    → ((el : Element) (n : ℕ) → P (body el n))
    → P (with_element t msg body r)
unfolding with_element
with_element-cases P t msg body (found el n) misses goes = goes el n
with_element-cases P t msg body (missed miss) misses goes = misses miss

-- The ways through the two guards.
pub guarded-cases :
    (P : Tab × List Effect → Type 0) (page : Page) (t : Tab) (msg : Message)
    (body : Element → ℕ → Tab × List Effect)
    → ((busy : Reason)
        → agent_target_busy_reason t (some msg.target_id) ≡ some busy
        → P (decline_agent_target_busy t msg busy))
    → ((miss : Miss)
        → agent_target_busy_reason t (some msg.target_id) ≡ none
        → P (report_agent_target_unresolvable t msg miss))
    → ((el : Element) (n : ℕ)
        → agent_target_busy_reason t (some msg.target_id) ≡ none
        → P (body el n))
    → P (guarded page t msg body)
unfolding guarded unless_busy
guarded-cases P page t msg body declines misses goes =
    elim (Option-cases (agent_target_busy_reason t (some msg.target_id))) [
      | inr (busy, e) ↦ rw (e, unless_busy) (declines busy e)
      | inl free ↦
          rw (free, unless_busy)
            (with_element-cases P t msg body _ (λ miss. misses miss free) (λ el n. goes el n free))
    ]

pub free-other_acting :
    (t : Tab) (except : Option Text)
    → agent_target_busy_reason t except ≡ none
    → other_acting except t.seen ≡ false
unfolding agent_target_busy_reason
free-other_acting t except h = ground (arith, h)
