-- ===== src/Recovery/State/Bounds.antt =====
-- The restored index of the visible variant stands among the variants.
use nafir.Base.{
  ℕ, zero, suc, ◌≡◌, Bool, true, false, ◌||◌, Option, none, some, if◌then◌else◌, ltb, Bool-cases,
  codes, ap, refl, arith, ◌≤◌, ◌<◌, sym, inl, inr,
}
use mathlib.Core.Path.{subst}
use nafir.Value.{Value, int, property}
use nafir.Recovery.Summary.{property?, or_else}
use nafir.Recovery.State.{
  Outside, Counters, clamp_variant_index, first_index, is_zero, is_beyond, number_of, arrived_count,
  expected_count, visible_index, restored_counters,
}

-- A count that is missing, or a natural number.
pub data IsCount : Option Value → Type 0 where
  missing : IsCount none
  counted : (n : ℕ) → IsCount (some (int n))

abbrev Counted : Option Value → Type 0
Counted v = (n : ℕ) × (v ≡ some (int n))

abbrev Positive : Option Value → Type 0
Positive v = (n : ℕ) × (v ≡ some (int (suc n)))

or_else-Counted :
    {v : Option Value} (w : Option Value) → IsCount v → Counted w → Counted (or_else v w)
or_else-Counted w missing h = h
or_else-Counted w (counted zero) h = h
or_else-Counted w (counted (suc n)) h = (suc n, refl)

or_else-Positive :
    {v : Option Value} (w : Option Value) → IsCount v → Positive w → Positive (or_else v w)
or_else-Positive w missing h = h
or_else-Positive w (counted zero) h = h
or_else-Positive w (counted (suc n)) h = (n, refl)

-- The larger of the counts that a visible index may reach.
abbrev pub shown_count : ℕ → ℕ → ℕ
shown_count zero e = suc e
shown_count (suc a) e = suc a

-- The counters are numbers, the expected one is not 0, and the index is within the count; it is not
-- 0 if a variant has arrived.
abbrev pub IsInRange : Counters → Type 0
IsInRange c =
    (e : ℕ) × (a : ℕ) × (c.expected ≡ some (suc e))
    × (c.arrived ≡ some a)
    × (c.visible ≤ shown_count a e)
    × (0 < a → 0 < c.visible)

clamp-le : (v : Option ℕ) (m : ℕ) → clamp_variant_index v (some (suc m)) ≤ suc m
clamp-le none m = omega arith
clamp-le (some n) m = elim (Bool-cases (ltb n 1 || is_beyond n (some (suc m)))) [
  | inl out ↦ rw out (omega arith)
  | inr within ↦ rw within (ground (arith, within))
]

first_index-le : (n m k : ℕ) → n ≤ k → m ≤ k → first_index n m ≤ k
first_index-le zero m k h h' = h'
first_index-le (suc n) m k h h' = h

first_index-positive : (n m : ℕ) → 0 < m → 0 < first_index n m
first_index-positive zero m h = h
first_index-positive (suc n) m h = omega arith

visible_index-le :
    (o : Outside) (saved : Value) (server : Option Value) (a e : ℕ)
    → visible_index o saved server (some a) (some (suc e)) ≤ shown_count a e
visible_index-le o saved server zero e =
    first_index-le _ _ (suc e) (clamp-le (number_of o (property (codes "visible") saved)) e) (
      first_index-le _ _ (suc e)
        (clamp-le (number_of o (property? (codes "visibleVariant") server)) e) (omega arith))
visible_index-le o saved server (suc a) e =
    first_index-le _ _ (suc a) (clamp-le (number_of o (property (codes "visible") saved)) a) (
      first_index-le _ _ (suc a)
        (clamp-le (number_of o (property? (codes "visibleVariant") server)) a) (omega arith))

visible_index-positive :
    (o : Outside) (saved : Value) (server : Option Value) (a e : ℕ)
    → 0 < a
    → 0 < visible_index o saved server (some a) (some (suc e))
visible_index-positive o saved server zero e h = absurd (omega (arith, h))
visible_index-positive o saved server (suc a) e h =
    first_index-positive _ _ (first_index-positive _ 1 (omega arith))

either-Number :
    (b : Bool) (x y : Option ℕ)
    → (n : ℕ) × (x ≡ some n)
    → (n : ℕ) × (y ≡ some n)
    → (n : ℕ) × ((if b then x else y) ≡ some n)
either-Number true x y h h' = h
either-Number false x y h h' = h'

pub unless_zero :
    (r s : Option ℕ) (n : ℕ) → s ≡ some (suc n) → (if is_zero s then r else s) ≡ some (suc n)
unless_zero r s n h = rw h refl

number_of-Counted :
    (o : Outside) (v : Option Value) → Counted v → (n : ℕ) × (number_of o v ≡ some n)
number_of-Counted o v (n, e) = (n, ap (number_of o) e)

-- The counts of a saved session and of the helper's summary of it are natural numbers or missing.
pub record HasCounts (saved : Value) (server : Option Value) : Type 0 where
  pub arrived : IsCount (property (codes "arrived") saved)
  pub expected : IsCount (property (codes "expected") saved)
  pub server_arrived : IsCount (property? (codes "arrivedVariants") server)
  pub server_expected : IsCount (property? (codes "expectedVariants") server)

module _ (o : Outside) (has_preview : Bool) (c : ℕ) (saved : Value) (server : Option Value) where
  arrived_count-Number :
      HasCounts saved server
      → (a : ℕ) × (arrived_count o has_preview (some (int (suc c))) saved server ≡ some a)
  arrived_count-Number h =
      either-Number _ _ _
        (number_of-Counted o _
          (or_else-Counted _ h.server_expected (or_else-Counted _ h.expected (suc c, refl))))
        (number_of-Counted o _
          (or_else-Counted _ h.arrived (or_else-Counted _ h.server_arrived (0, refl))))

  expected_count-Positive :
      (arrived : Option ℕ)
      → HasCounts saved server
      → (e : ℕ) × (expected_count o (some (int (suc c))) saved server arrived ≡ some (suc e))
  expected_count-Positive arrived h =
      let (n, e) =
        or_else-Positive _ h.expected
          (or_else-Positive (some (int (suc c))) h.server_expected (c, refl)) in
      (n, unless_zero _ _ n (ap (number_of o) e))

-- If the counts that a saved session and the helper's summary of it have are natural numbers, and
-- the tab's own count is not 0, a resumed session expects at least one variant, and the index of
-- the visible variant is at most the number of the variants that arrived, or of those that are
-- expected if none did; once one has arrived, the index is not 0. The saved indices are arbitrary.
pub restored_counters-IsInRange :
    (o : Outside) (has_preview : Bool) (c : ℕ) (saved : Value) (server : Option Value)
    → HasCounts saved server
    → IsInRange (restored_counters o has_preview (some (int (suc c))) saved server)
unfolding restored_counters
restored_counters-IsInRange o has_preview c saved server h =
    let (a, there) = arrived_count-Number o has_preview c saved server h in
    let arrived = arrived_count o has_preview (some (int (suc c))) saved server in
    let (e, some_e) = expected_count-Positive o has_preview c saved server arrived h in
    let expected = expected_count o (some (int (suc c))) saved server arrived in
    let index : Option ℕ → Option ℕ → ℕ = visible_index o saved server in
    (
      e,
      a,
      some_e,
      there,
      subst (λ (r : Option ℕ). index r expected ≤ shown_count a e) (sym there)
          (subst (λ (r : Option ℕ). index (some a) r ≤ shown_count a e) (sym some_e)
            (visible_index-le o saved server a e)),
      λ some_a.
          subst (λ (r : Option ℕ). 0 < index r expected) (sym there)
            (subst (λ (r : Option ℕ). 0 < index (some a) r) (sym some_e)
              (visible_index-positive o saved server a e some_a)),
    )
