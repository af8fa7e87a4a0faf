-- ===== src/Recovery/Reload/Counts.antt =====
-- How often a session stands among those with a timer, and what the stamps count.
use nafir.Base.{
  ℕ, ◌+◌, ◌≡◌, ◌≤◌, Bool, true, false, not, List, [], ◌∷◌, if◌then◌else◌, Text, is_empty, text_eq,
  text_eq_iff, contains, arith, refl, sym, Bool-cases, inl, inr, branch, all,
}
use mathlib.Core.Path.{subst}
use nafir.Recovery.Reload.{attempts, without, without_stamp}

abbrev pub count : Text → List Text → ℕ
count id [] = 0
count id (k ∷ s) = (if text_eq k id then 1 else 0) + count id s

pub count-without :
    (id k : Text) (s : List Text)
    → count id (without k s) ≡ (if text_eq k id then 0 else count id s)
count-without id k [] = ground arith
count-without id k (x ∷ s) =
    ground (arith, count-without id k s, text_eq_iff x k, text_eq_iff k id, text_eq_iff x id)

pub count-contains : (id : Text) (s : List Text) → contains s id ≡ false → count id s ≡ 0
count-contains id [] h = refl
count-contains id (x ∷ s) h =
    ground (arith, count-contains id s, h, text_eq_iff id x, text_eq_iff x id)

pub contains-count : (id : Text) (s : List Text) → contains s id ≡ true → 1 ≤ count id s
contains-count id [] h = cc
contains-count id (x ∷ s) h =
    ground (arith, contains-count id s, h, text_eq_iff id x, text_eq_iff x id)

pub attempts-without_stamp :
    (id k : Text) (s : List (Text × ℕ))
    → attempts id (without_stamp k s) ≡ (if text_eq k id then 0 else attempts id s)
attempts-without_stamp id k [] = ground arith
attempts-without_stamp id k ((x, n) ∷ s) =
    ground
      (arith, attempts-without_stamp id k s, text_eq_iff x k, text_eq_iff k id, text_eq_iff x id)

abbrev pub is_named : Text → Bool
is_named k = not (is_empty k)

pub all-without :
    (k : Text) (s : List Text) → all is_named s ≡ true → all is_named (without k s) ≡ true
all-without k [] h = refl
all-without k (x ∷ s) h =
    branch (λ (l : List Text). all is_named l ≡ true) (text_eq x k)
      (all-without k s (ground (arith, h))) (ground (arith, h, all-without k s))

pub contains-named :
    (k : Text) (s : List Text) → all is_named s ≡ true → contains s k ≡ true → is_empty k ≡ false
contains-named k [] h c = cc
contains-named k (x ∷ s) h c = elim (Bool-cases (text_eq k x)) [
  | inl same ↦
      subst (λ (y : Text). is_empty y ≡ false) (sym ((text_eq_iff k x).0 same)) (ground (arith, h))
  | inr differ ↦ contains-named k s (ground (arith, h)) (ground (arith, c, differ))
]
