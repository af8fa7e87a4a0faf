-- ===== src/Base/Tests.antt =====
-- Boolean tests on the native numbers, the conditional, and case splits that keep the equation.
use Prim.Native.Nat.{ℕ, compare, Ordering}
use mathlib.Core.Path.{◌≡◌, refl}
use mathlib.Core.Logic.{◌↔◌, ◌⊎◌, inl, inr}
use mathlib.Core.Bool.{Bool, true, false, ◌&&◌}
use mathlib.Core.Option.{Option, none, some}
use native.Mathlib.Omega.{arith}

abbrev pub ltb : ℕ → ℕ → Bool
ltb a b = elim (compare a b) [ Ordering.lt ↦ true | _ ↦ false ]

abbrev pub leb : ℕ → ℕ → Bool
leb a b = elim (compare a b) [ Ordering.gt ↦ false | _ ↦ true ]

infix 50 ◌==◌
abbrev pub ◌==◌ : ℕ → ℕ → Bool
a == b = elim (compare a b) [ Ordering.eq ↦ true | _ ↦ false ]

infix 1 if◌then◌else◌
abbrev pub if◌then◌else◌ {ℓ} : {A : Type ℓ} → Bool → A → A → A
if true then x else y = x
if false then x else y = y

pub ==_iff : (a b : ℕ) → ((a == b) ≡ true) ↔ (a ≡ b)
==_iff a b = ground arith

pub Bool-cases : (b : Bool) → (b ≡ true) ⊎ (b ≡ false)
Bool-cases true = inl refl
Bool-cases false = inr refl

pub Option-cases {ℓ} : {A : Type ℓ} (o : Option A) → (o ≡ none) ⊎ ((a : A) × (o ≡ some a))
Option-cases none = inl refl
Option-cases (some a) = inr (a, refl)

pub and-left : (a b : Bool) → (a && b) ≡ true → a ≡ true
and-left a b h = ground arith

pub and-right : (a b : Bool) → (a && b) ≡ true → b ≡ true
and-right a b h = ground arith

-- What holds of both branches, or of the branch that is taken, holds of the whole.
module _ {ℓ κ} {A : Type ℓ} (P : A → Type κ) where
  pub branch : (b : Bool) {r s : A} → P r → P s → P (if b then r else s)
  branch true h k = h
  branch false h k = k

  pub branch_by :
      (b : Bool) {r s : A} → (b ≡ true → P r) → (b ≡ false → P s) → P (if b then r else s)
  branch_by true h k = h refl
  branch_by false h k = k refl

  pub branch_true : (b : Bool) {r : A} (s : A) → b ≡ true → P r → P (if b then r else s)
  branch_true true s e h = h
  branch_true false s e h = cc

  pub branch_false : (b : Bool) (r : A) {s : A} → b ≡ false → P s → P (if b then r else s)
  branch_false false r e h = h
  branch_false true r e h = cc

-- What relates both pairs of branches relates the whole.
module _ {ℓ κ μ} {A : Type ℓ} {B : Type κ} (P : A → B → Type μ) where
  pub branch_both :
      (b : Bool) {a a' : A} {c c' : B}
      → P a c
      → P a' c'
      → P (if b then a else a') (if b then c else c')
  branch_both true h k = h
  branch_both false h k = k
