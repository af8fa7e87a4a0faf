-- ===== src/Phase/Monotone.antt =====
-- Over known phases the bar never goes back.
use nafir.Base.{
  ℕ, ◌≡◌, true, false, max, Option, none, some, List, [], ◌∷◌, All, arith, Text, Bool-cases, inl,
  inr, refl, ap, sym, ◌∙◌, leb, text_eq_iff, is_empty,
}
use nafir.Phase.{rank, not_behind, is_phase, should_advance_phase, receive, receive_all}

-- A phase that `PHASE_RANK` knows, with its rank.
abbrev pub IsRanked : Option Text × ℕ → Type 0
IsRanked (phase, r) = rank phase ≡ some r

-- The highest of some ranks and a first one.
abbrev pub highest : ℕ → List (Option Text × ℕ) → ℕ
highest r [] = r
highest r ((_, s) ∷ phases) = highest (max r s) phases

abbrev pub names : List (Option Text × ℕ) → List (Option Text)
names [] = []
names ((phase, _) ∷ phases) = phase ∷ names phases

is_phase-eq :
    (next : Text) (current : Option Text) → is_phase next current ≡ true → current ≡ some next
unfolding is_phase
is_phase-eq next none h = cc
is_phase-eq next (some c) h = ap some (sym ((text_eq_iff next c).0 h))

rank-receive_nonempty :
    (current : Option Text) (next : Text) (r s : ℕ)
    → is_empty next ≡ false
    → rank current ≡ some r
    → rank (some next) ≡ some s
    → rank (receive current (some next)) ≡ some (max r s)
unfolding receive should_advance_phase not_behind
rank-receive_nonempty current next r s n hr hs = elim (Bool-cases (is_phase next current)) [
  | inl same ↦
      let ranks : some r ≡ some s = sym hr ∙ ap rank (is_phase-eq next current same) ∙ hs in
      let agree : r ≡ s = cc in rw (n, same, hr) (ap some (omega arith))
  | inr differ ↦
      rw (n, differ, hr, hs)
        (elim (Bool-cases (leb r s)) [
          | inl le ↦ rw (le, hs) (ap some (ground arith))
          | inr lt ↦ rw (lt, hr) (ap some (ground arith))
        ])
]

rank-receive :
    (current phase : Option Text) (r s : ℕ)
    → rank current ≡ some r
    → rank phase ≡ some s
    → rank (receive current phase) ≡ some (max r s)
unfolding rank
rank-receive current none r s hr hs = cc
rank-receive current (some []) r s hr hs = cc
rank-receive current (some (c ∷ t)) r s hr hs = rank-receive_nonempty current (c ∷ t) r s refl hr hs

-- A bar that shows a known phase, and is sent known phases only, shows one of the highest rank
-- among all of them.
pub rank-receive_all :
    (current : Option Text) (r : ℕ) (phases : List (Option Text × ℕ))
    → rank current ≡ some r
    → All IsRanked phases
    → rank (receive_all current (names phases)) ≡ some (highest r phases)
unfolding receive_all
rank-receive_all current r [] hr h = hr
rank-receive_all current r ((phase, s) ∷ phases) hr h =
    rank-receive_all (receive current phase) (max r s) phases
      (rank-receive current phase r s hr h.0) h.1
