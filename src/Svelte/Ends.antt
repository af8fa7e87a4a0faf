-- ===== src/Svelte/Ends.antt =====
-- The loops that strip Svelte blocks end.
use nafir.Base.{
  ℕ, zero, suc, ◌+◌, ◌-◌, ◌≤◌, ◌<◌, ◌≡◌, ◌==◌, Option, none, some, [], ◌∷◌, Text, codes,
  starts_with, length, length-append, length-drop, arith, refl, ap, sym, ◌∙◌, branch,
}
use nafir.Svelte.Regions.{Region, Braced, behind_region-Region, behind_brace-Braced}
use nafir.Svelte.Strips.{
  StripsRegions, StripsKeys, strip_regions-StripsRegions, strip_key_openings-StripsKeys,
}
use nafir.Svelte.{
  Block, each_block, if_block, strip_svelte_key_delimiters, strip_svelte_block_regions, opening,
  closing, put_before, cut_at, behind_region, behind_brace, joined, without, cut_region, cut_key,
  rounds, strip_key_openings, strip_regions,
}

-- What is left, if anything, is shorter.
abbrev pub Shortens : Text → Option Text → Type 0
Shortens s none = Unit {0}
Shortens s (some t) = length t < length s

abbrev Cuts : Text → Option (Text × Text) → Type 0
Cuts s none = Unit {0}
Cuts s (some (before, at)) = length s ≡ length before + length at

Shortens-more : (c : ℕ) (s : Text) (r : Option Text) → Shortens s r → Shortens (c ∷ s) r
Shortens-more c s none h = tt
Shortens-more c s (some t) h = omega (arith, h)

put_before-Cuts :
    (c : ℕ) (s : Text) (r : Option (Text × Text)) → Cuts s r → Cuts (c ∷ s) (put_before c r)
put_before-Cuts c s none h = tt
put_before-Cuts c s (some (before, at)) h = omega (arith, h)

cut_at-Cuts : (pattern s : Text) → Cuts s (cut_at pattern s)
cut_at-Cuts pattern [] = tt
cut_at-Cuts pattern (c ∷ s) =
    branch (Cuts (c ∷ s)) (starts_with (c ∷ s) pattern) (omega arith)
      (put_before-Cuts c s (cut_at pattern s) (cut_at-Cuts pattern s))

behind_region-Shortens :
    (k : Block) (skip depth : ℕ) (s : Text) → Shortens s (behind_region k skip depth s)
behind_region-Shortens k zero depth [] = tt
behind_region-Shortens k (suc skip) depth [] = tt
behind_region-Shortens k (suc skip) depth (c ∷ s) =
    Shortens-more c s (behind_region k skip depth s) (behind_region-Shortens k skip depth s)
behind_region-Shortens k zero depth (c ∷ s) =
    let at : (skip depth : ℕ) → Shortens (c ∷ s) (behind_region k skip depth s) = λ skip depth.
      Shortens-more c s (behind_region k skip depth s) (behind_region-Shortens k skip depth s) in
    branch (Shortens (c ∷ s)) (starts_with (c ∷ s) (opening k))
      (at (length (opening k) - 1) (suc depth))
      (branch (Shortens (c ∷ s)) (starts_with (c ∷ s) (closing k))
        (branch (Shortens (c ∷ s)) (depth == 1)
          (omega (arith, length-drop (length (closing k) - 1) s))
          (at (length (closing k) - 1) (depth - 1)))
        (at 0 depth))

behind_brace-Shortens : (depth : ℕ) (s : Text) → Shortens s (behind_brace depth s)
behind_brace-Shortens depth [] = tt
behind_brace-Shortens depth (c ∷ s) =
    let at : (depth : ℕ) → Shortens (c ∷ s) (behind_brace depth s) =
      λ depth. Shortens-more c s (behind_brace depth s) (behind_brace-Shortens depth s) in
    branch (Shortens (c ∷ s)) (c == b'{') (at (suc depth)) (
      branch (Shortens (c ∷ s)) (c == b'}')
        (branch (Shortens (c ∷ s)) (depth == 1) (omega arith) (at (depth - 1))) (at depth))

joined-Shortens :
    (s before at : Text) (r : Option Text)
    → length s ≡ length before + length at
    → Shortens at r
    → Shortens s (joined before r)
joined-Shortens s before at none e h = tt
joined-Shortens s before at (some rest) e h = omega (arith, e, h, length-append before rest)

without-Shortens :
    (behind : Text → Option Text) (s : Text) (r : Option (Text × Text))
    → ((t : Text) → Shortens t (behind t))
    → Cuts s r
    → Shortens s (without behind r)
without-Shortens behind s none h e = tt
without-Shortens behind s (some (before, at)) h e = joined-Shortens s before at (behind at) e (h at)

cut_region-Shortens : (k : Block) (s : Text) → Shortens s (cut_region k s)
unfolding cut_region
cut_region-Shortens k s =
    without-Shortens (behind_region k 0 0) s (cut_at (opening k) s) (behind_region-Shortens k 0 0)
      (cut_at-Cuts (opening k) s)

cut_key-Shortens : (s : Text) → Shortens s (cut_key s)
unfolding cut_key
cut_key-Shortens s =
    without-Shortens (behind_brace 0) s (cut_at (codes "{#key") s) (behind_brace-Shortens 0)
      (cut_at-Cuts (codes "{#key") s)

some-ne-none : {t : Text} → some t ≡ none → ⊥
some-ne-none e = cc

nothing-left : (s : Text) (r : Option Text) → Shortens s r → length s ≤ 0 → r ≡ none
nothing-left s none h le = refl
nothing-left s (some t) h le = absurd (omega (arith, h, le))

-- The rest of the loop, for the result of a round.
abbrev next_round : (Text → Option Text) → ℕ → Text → Option Text → Text
next_round cut fuel s r = elim r [ none ↦ s | some t ↦ rounds cut fuel t ]

next_round-none :
    (cut : Text → Option Text) (fuel : ℕ) (s : Text) (r : Option Text)
    → cut s ≡ r
    → ((t : Text) → length t < length s → cut (rounds cut fuel t) ≡ none)
    → Shortens s r
    → cut (next_round cut fuel s r) ≡ none
next_round-none cut fuel s none e rest k = e
next_round-none cut fuel s (some t) e rest k = rest t k

-- With one round for each unit, the loop ends with `break`.
rounds-none :
    (cut : Text → Option Text) (fuel : ℕ) (s : Text)
    → ((t : Text) → Shortens t (cut t))
    → length s ≤ fuel
    → cut (rounds cut fuel s) ≡ none
rounds-none cut zero s h le = nothing-left s (cut s) (h s) le
rounds-none cut (suc fuel) s h le =
    next_round-none cut fuel s (cut s) refl
      (λ t shorter. rounds-none cut fuel t h (omega (arith, shorter, le))) (h s)

rounds-stay :
    (cut : Text → Option Text) (more : ℕ) (s : Text) → cut s ≡ none → rounds cut more s ≡ s
rounds-stay cut zero s e = refl
rounds-stay cut (suc more) s e = ap (next_round cut more s) e

-- The first opening of the text, if it has one, opens no region with an end.
abbrev pub HasNoRegion : Block → Option (Text × Text) → Type 0
HasNoRegion k none = Unit {0}
HasNoRegion k (some (before, at)) = (rest : Text) → ¬ (Region k rest 0 at)

abbrev pub HasNoBraces : Option (Text × Text) → Type 0
HasNoBraces none = Unit {0}
HasNoBraces (some (before, at)) = (rest : Text) → ¬ (Braced rest 0 at)

without-HasNoRegion :
    (k : Block) (r : Option (Text × Text))
    → without (behind_region k 0 0) r ≡ none
    → HasNoRegion k r
without-HasNoRegion k none e = tt
without-HasNoRegion k (some (before, at)) e =
    λ rest region. some-ne-none (ap (joined before) (sym (behind_region-Region k rest region)) ∙ e)

without-HasNoBraces : (r : Option (Text × Text)) → without (behind_brace 0) r ≡ none → HasNoBraces r
without-HasNoBraces none e = tt
without-HasNoBraces (some (before, at)) e =
    λ rest region. some-ne-none (ap (joined before) (sym (behind_brace-Braced rest region)) ∙ e)

-- The loop over the regions has come to its `break`: the first opening opens none that ends, and
-- further rounds change nothing.
abbrev pub IsOver : Block → Text → Type 0
IsOver k s = HasNoRegion k (cut_at (opening k) s) × ((more : ℕ) → rounds (cut_region k) more s ≡ s)

-- The same for the openings of key blocks.
abbrev pub IsKeyOver : Text → Type 0
IsKeyOver s = HasNoBraces (cut_at (codes "{#key") s) × ((more : ℕ) → rounds cut_key more s ≡ s)

rounds-IsOver : (k : Block) (s : Text) → IsOver k (rounds (cut_region k) (length s) s)
unfolding cut_region
rounds-IsOver k s =
    let done = rounds-none (cut_region k) (length s) s (cut_region-Shortens k) (omega arith) in
    (
      without-HasNoRegion k _ done,
      λ more. rounds-stay (cut_region k) more (rounds (cut_region k) (length s) s) done,
    )

rounds-IsKeyOver : (s : Text) → IsKeyOver (rounds cut_key (length s) s)
unfolding cut_key
rounds-IsKeyOver s =
    let done = rounds-none cut_key (length s) s cut_key-Shortens (omega arith) in
    (
      without-HasNoBraces _ done,
      λ more. rounds-stay cut_key more (rounds cut_key (length s) s) done,
    )

-- For any source, the loops over the openings of key blocks and over the regions of each kind end
-- with their `break` in as many rounds as the source has units, and so does the last one of
-- `stripSvelteBlockRegions`: more rounds change nothing, and the first opening that is left opens no
-- region, or no braces, with an end that matches it. What the loops take out of their text are
-- regions, each from its opening to the closing that matches it, or openings of key blocks, each up
-- to the brace that matches its first.
pub strip_svelte_block_regions-IsOver :
    (k : Block) (s : Text)
    → StripsKeys s (strip_key_openings s)
      × IsKeyOver (strip_key_openings s)
      × StripsRegions k s (strip_regions k s)
      × IsOver k (strip_regions k s)
      × IsOver if_block (strip_svelte_block_regions s)
unfolding strip_key_openings strip_regions strip_svelte_block_regions
strip_svelte_block_regions-IsOver k s = (
  strip_key_openings-StripsKeys s,
  rounds-IsKeyOver s,
  strip_regions-StripsRegions k s,
  rounds-IsOver k s,
  rounds-IsOver if_block (strip_regions each_block (strip_svelte_key_delimiters s)),
)
