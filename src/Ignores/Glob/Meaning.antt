-- ===== src/Ignores/Glob/Meaning.antt =====
-- What `globToRegex` writes for each construct of a glob, as a relation, and the proof that the loop
-- writes exactly that for every glob.
use nafir.Base.{
  ℕ, zero, suc, ◌≤◌, ◌≡◌, ◌≢◌, ◌⊎◌, true, false, none, some, [], ◌∷◌, ◌++◌, ◌==◌, Text, codes,
  index_of, take, drop, length, length-drop, arith, refl, All, ◌∙◌, ap, append_assoc, append-nil,
  sym, Bool-cases, inl, inr, ==_iff,
}
use nafir.Ignores.Glob.{
  is_meta, skip_slash, alternation, star_round, brace_round, round, glob_loop, glob_to_regex,
}

-- The meaning of a glob, construct by construct.
abbrev pub Without : ℕ → Text → Type 0
Without c s = All (λ d. d ≢ c) s

abbrev pub StartsWithout : ℕ → Text → Type 0
StartsWithout c [] = Unit
StartsWithout c (d ∷ s) = d ≢ c

pub data Translates : Text → Text → Type 0 where
  end : Translates [] []
  deep_slash :
      {s re : Text} → Translates s re → Translates (b'*' ∷ b'*' ∷ b'/' ∷ s) (codes ".*" ++ re)
  deep :
      {s re : Text}
      → StartsWithout b'/' s
      → Translates s re
      → Translates (b'*' ∷ b'*' ∷ s) (codes ".*" ++ re)
  star :
      {s re : Text}
      → StartsWithout b'*' s
      → Translates s re
      → Translates (b'*' ∷ s) (codes "[^/]*" ++ re)
  one : {s re : Text} → Translates s re → Translates (b'?' ∷ s) (codes "[^/]" ++ re)
  choice :
      (inner : Text) {s t re : Text}
      → Without b'}' inner
      → t ≡ inner ++ b'}' ∷ s
      → Translates s re
      → Translates (b'{' ∷ t) (alternation inner ++ re)
  brace :
      {s re : Text} → Without b'}' s → Translates s re → Translates (b'{' ∷ s) (codes "\\{" ++ re)
  meta :
      {c : ℕ} {s re : Text} → is_meta c ≡ true → Translates s re → Translates (c ∷ s) (92 ∷ c ∷ re)
  plain :
      {c : ℕ} {s re : Text}
      → is_meta c ≡ false
      → c ≢ b'*'
      → c ≢ b'?'
      → c ≢ b'{'
      → Translates s re
      → Translates (c ∷ s) (c ∷ re)

index_of-cases :
    (s : Text)
    → ((index_of (codes "}") s ≡ none) × Without b'}' s)
      ⊎ ((n : ℕ) × (index_of (codes "}") s ≡ some n)
          × (s ≡ take n s ++ b'}' ∷ drop (suc n) s)
          × Without b'}' (take n s))
index_of-cases [] = inl (refl, tt)
index_of-cases (c ∷ s) = elim (Bool-cases (c == b'}')) [
  | inl here ↦ inr (0, rw here, cc ((==_iff c b'}').0 here), tt)
  | inr other ↦ elim (index_of-cases s) [
    | inl (missing, free) ↦
        inl (rw other (rw missing), ((λ e. cc (other, (==_iff c b'}').1 e)), free))
    | inr (n, found, parts, free) ↦ inr (
      suc n,
      rw other (rw found),
      ap (c ∷◌) parts,
      ((λ e. cc (other, (==_iff c b'}').1 e)), free),
    )
  ]
]

-- One round: what is left is no longer, and whatever the rest stands for, the whole stands for the
-- text added and that.
abbrev Rounds : ℕ → Text → Text × Text → Type 0
Rounds c s r =
    (length r.1 ≤ length s) × ((re : Text) → Translates r.1 re → Translates (c ∷ s) (r.0 ++ re))

deep-Rounds :
    (s : Text)
    → (length (skip_slash s) ≤ length s)
      × ((re : Text)
          → Translates (skip_slash s) re
          → Translates (b'*' ∷ b'*' ∷ s) (codes ".*" ++ re))
unfolding skip_slash
deep-Rounds [] = (omega arith, λ re t. deep tt t)
deep-Rounds (c ∷ s) = elim (Bool-cases (c == b'/')) [
  | inl slash ↦ rw slash (rw ((==_iff c b'/').0 slash) (omega arith, λ re t. deep_slash t))
  | inr other ↦ rw other (omega arith, λ re t. deep (λ e. cc (other, (==_iff c b'/').1 e)) t)
]

star-Rounds : (s : Text) → Rounds b'*' s (star_round s)
unfolding star_round skip_slash
star-Rounds [] = (omega arith, λ re t. star tt t)
star-Rounds (d ∷ s) = elim (Bool-cases (d == b'*')) [
  | inl twice ↦
      rw twice (rw ((==_iff d b'*').0 twice) (omega (arith, deep-Rounds s), (deep-Rounds s).1))
  | inr once ↦ rw once (omega arith, λ re t. star (λ e. cc (once, (==_iff d b'*').1 e)) t)
]

brace-Rounds : (s : Text) → Rounds b'{' s (brace_round s (index_of (codes "}") s))
unfolding brace_round
brace-Rounds s = elim (index_of-cases s) [
  | inl (missing, free) ↦ rw missing (omega arith, λ re t. brace free t)
  | inr (n, found, parts, free) ↦
      rw found (omega (arith, length-drop (suc n) s), λ re t. choice (take n s) free parts t)
]

round-Rounds : (c : ℕ) (s : Text) → Rounds c s (round c s)
unfolding round
round-Rounds c s = elim (Bool-cases (c == b'*')) [
  | inl is_star ↦ rw is_star (rw ((==_iff c b'*').0 is_star) (star-Rounds s))
  | inr not_star ↦ rw not_star (elim (Bool-cases (c == b'?')) [
    | inl is_one ↦ rw is_one (omega arith, λ re t. rw ((==_iff c b'?').0 is_one) (one t))
    | inr not_one ↦ rw not_one (elim (Bool-cases (c == b'{')) [
      | inl is_brace ↦ rw is_brace (rw ((==_iff c b'{').0 is_brace) (brace-Rounds s))
      | inr not_brace ↦ rw not_brace (elim (Bool-cases (is_meta c)) [
        | inl is_special ↦ rw is_special (omega arith, λ re t. meta is_special t)
        | inr not_special ↦ rw not_special (
          omega arith,
          λ re t.
              plain not_special (λ e. cc (not_star, (==_iff c b'*').1 e))
                (λ e. cc (not_one, (==_iff c b'?').1 e)) (λ e. cc (not_brace, (==_iff c b'{').1 e))
                t,
        )
      ])
    ])
  ])
]

glob_loop-Translates :
    (f : ℕ) (re s : Text)
    → length s ≤ f
    → (body : Text) × (glob_loop f re s ≡ some (re ++ body)) × Translates s body
unfolding glob_loop
glob_loop-Translates zero re [] h = ([], ap some (sym (append-nil re)), end)
glob_loop-Translates (suc f) re [] h = ([], ap some (sym (append-nil re)), end)
glob_loop-Translates zero re (c ∷ s) h = absurd (omega arith)
glob_loop-Translates (suc f) re (c ∷ s) h =
    let (shorter, means) = round-Rounds c s in
    let (body, runs, translated) =
      glob_loop-Translates f (re ++ (round c s).0) (round c s).1 (omega arith) in
    (
      (round c s).0 ++ body,
      runs ∙ ap some (append_assoc re (round c s).0 body),
      means body translated,
    )

-- For every glob the loop ends, and the text is `^`, what the constructs of the glob stand for in
-- their order, and `$`.
pub glob_to_regex-Translates :
    (glob : Text)
    → (body : Text) × (glob_to_regex glob ≡ some (codes "^" ++ body ++ codes "$"))
      × Translates glob body
unfolding glob_to_regex
glob_to_regex-Translates glob =
    let (body, runs, translated) =
      glob_loop-Translates (length glob) (codes "^") glob (omega arith) in
    (body, rw (runs, glob_to_regex), translated)
