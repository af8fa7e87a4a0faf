-- ===== src/Base/Strings/Split.antt =====
-- What `split` and `trim` give for texts without the separator, or without white space at the ends.
use Prim.Native.Nat.{ℕ}
use mathlib.Core.Path.{◌≡◌, refl, sym, ap, ◌∙◌}
use mathlib.Core.Bool.{Bool, true, not}
use mathlib.Core.List.{
  List, [], ◌∷◌, ◌++◌, reverse, append_assoc, append-nil, reverse-append, reverse-reverse,
}
use native.Mathlib.Omega.{arith}
use nafir.Base.Tests.{◌==◌, ==_iff, branch_true, branch_false}
use nafir.Base.Lists.{all}
use nafir.Base.Strings.{Text, is_space, trim_start, trim, split_from, split}

abbrev pub lacks : ℕ → Text → Bool
lacks sep s = all (λ c. not (c == sep)) s

-- The part that is read, before the separator and at the end.
reverse-cons : (c : ℕ) (cur s : Text) → reverse (c ∷ cur) ++ s ≡ reverse cur ++ c ∷ s
reverse-cons c cur s =
    ap (λ (l : Text). l ++ s) (reverse-append (c ∷ []) cur) ∙ append_assoc (reverse cur) (c ∷ []) s

split_from-part :
    (sep : ℕ) (cur part rest : Text)
    → lacks sep part ≡ true
    → split_from sep cur (part ++ sep ∷ rest) ≡ (reverse cur ++ part) ∷ split_from sep [] rest
unfolding split_from
split_from-part sep cur [] rest h =
    branch_true (λ (r : List Text). r ≡ (reverse cur ++ []) ∷ split_from sep [] rest) (sep == sep)
      (split_from sep (sep ∷ cur) rest) ((==_iff sep sep).1 refl)
      (ap (λ (l : Text). l ∷ split_from sep [] rest) (sym (append-nil (reverse cur))))
split_from-part sep cur (c ∷ part) rest h =
    branch_false (λ (r : List Text). r ≡ (reverse cur ++ c ∷ part) ∷ split_from sep [] rest)
      (c == sep) _ (ground (arith, h))
      (split_from-part sep (c ∷ cur) part rest (ground (arith, h))
        ∙ ap (λ (l : Text). l ∷ split_from sep [] rest) (reverse-cons c cur part))

split_from-last :
    (sep : ℕ) (cur part : Text)
    → lacks sep part ≡ true
    → split_from sep cur part ≡ (reverse cur ++ part) ∷ []
unfolding split_from
split_from-last sep cur [] h = ap (λ (l : Text). l ∷ []) (sym (append-nil (reverse cur)))
split_from-last sep cur (c ∷ part) h =
    branch_false (λ (r : List Text). r ≡ (reverse cur ++ c ∷ part) ∷ []) (c == sep) _
      (ground (arith, h))
      (split_from-last sep (c ∷ cur) part (ground (arith, h))
        ∙ ap (λ (l : Text). l ∷ []) (reverse-cons c cur part))

pub split-part :
    (sep : ℕ) (part rest : Text)
    → lacks sep part ≡ true
    → split sep (part ++ sep ∷ rest) ≡ part ∷ split sep rest
unfolding split
split-part sep part rest h = split_from-part sep [] part rest h

pub split-last : (sep : ℕ) (part : Text) → lacks sep part ≡ true → split sep part ≡ part ∷ []
unfolding split
split-last sep part h = split_from-last sep [] part h

-- The first unit, if there is one, is not white space.
abbrev pub starts_dark : Text → Bool
starts_dark [] = true
starts_dark (c ∷ s) = not (is_space c)

trim_start-dark : (s : Text) → starts_dark s ≡ true → trim_start s ≡ s
unfolding trim_start
trim_start-dark [] h = refl
trim_start-dark (c ∷ s) h =
    branch_false (λ (r : Text). r ≡ c ∷ s) (is_space c) (trim_start s) (ground (arith, h)) refl

pub trim-dark : (s : Text) → starts_dark s ≡ true → starts_dark (reverse s) ≡ true → trim s ≡ s
unfolding trim
trim-dark s h k =
    ap (λ (l : Text). reverse (trim_start (reverse l))) (trim_start-dark s h)
    ∙ ap (λ (l : Text). reverse l) (trim_start-dark (reverse s) k)
    ∙ reverse-reverse s
