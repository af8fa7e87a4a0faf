-- ===== src/Svelte/Strips.antt =====
-- What the stripping takes out of a source: regions and openings of key blocks, as the relations of
-- Svelte/Regions say what these are.
use nafir.Base.{
  ℕ, zero, suc, ◌-◌, ◌≡◌, ◌==◌, ==_iff, Bool, true, false, if◌then◌else◌, Option, none, some, [],
  ◌∷◌, ◌++◌, Text, codes, starts_with, length, drop, arith, refl, ap, sym, ◌∙◌, branch_false,
  and-left, and-right,
}
use mathlib.Core.Path.{subst}
use nafir.Svelte.Regions.{Region, Braced}
use nafir.Svelte.{
  Block, each_block, if_block, opening, closing, behind_region, put_before, cut_at, without, joined,
  behind_brace, cut_region, cut_key, rounds, strip_regions, strip_key_openings,
}

starts_with-split : (s p : Text) → starts_with s p ≡ true → s ≡ p ++ drop (length p) s
starts_with-split s [] h = refl
starts_with-split [] (y ∷ p) h = cc
starts_with-split (x ∷ s) (y ∷ p) h =
    let e : x ≡ y = (==_iff x y).0 (and-left (x == y) (starts_with s p) h) in
    rw (e, sym (starts_with-split s p (and-right (x == y) (starts_with s p) h)))

-- Both branches, each with the value of the test.
branch_on {ℓ κ} :
    {A : Type ℓ} (P : A → Type κ) (b : Bool) {r s : A}
    → (b ≡ true → P r)
    → (b ≡ false → P s)
    → P (if b then r else s)
branch_on P true h k = h refl
branch_on P false h k = k refl

split-opening :
    (k : Block) (c : ℕ) (s : Text)
    → starts_with (c ∷ s) (opening k) ≡ true
    → c ∷ s ≡ opening k ++ drop (length (opening k) - 1) s
split-opening each_block c s h = starts_with-split (c ∷ s) (opening each_block) h
split-opening if_block c s h = starts_with-split (c ∷ s) (opening if_block) h

split-closing :
    (k : Block) (c : ℕ) (s : Text)
    → starts_with (c ∷ s) (closing k) ≡ true
    → c ∷ s ≡ closing k ++ drop (length (closing k) - 1) s
split-closing each_block c s h = starts_with-split (c ∷ s) (closing each_block) h
split-closing if_block c s h = starts_with-split (c ∷ s) (closing if_block) h

some-ne : {A : Type 0} {a : A} → none ≡ some a → ⊥
some-ne e = cc

some-of : {A : Type 0} {a b : A} → some a ≡ some b → a ≡ b
some-of e = cc

-- At a closing, with the outer region to go on with.
at_closing :
    (k : Block) (rest s t : Text) (depth : ℕ) (r : Option Text)
    → t ≡ closing k ++ s
    → (r ≡ some rest → (d : ℕ) → suc d ≡ depth → Region k rest (suc d) s)
    → (if suc depth == 1 then some s else r) ≡ some rest
    → Region k rest (suc depth) t
at_closing k rest s t zero r e outer h =
    subst (Region k rest 1) (sym (e ∙ ap (λ u. closing k ++ u) (some-of h))) Region.ends
at_closing k rest s t (suc d) r e outer h =
    let goes_on : (if suc (suc d) == 1 then some s else r) ≡ r =
      branch_false (λ o. o ≡ r) (suc (suc d) == 1) (some s) (ground arith) refl in
    subst (Region k rest (suc (suc d))) (sym e) (Region.closes (outer (sym goes_on ∙ h) d refl))

-- What the inner loop finds behind a region is behind the closing that matches.
Region-behind_region :
    (k : Block) (rest : Text) (skip depth : ℕ) (s : Text)
    → behind_region k skip (suc depth) s ≡ some rest
    → Region k rest (suc depth) (drop skip s)
Region-behind_region k rest zero depth [] = λ h. absurd (some-ne h)
Region-behind_region k rest (suc skip) depth [] = λ h. absurd (some-ne h)
Region-behind_region k rest (suc skip) depth (c ∷ s) = Region-behind_region k rest skip depth s
Region-behind_region k rest zero depth (c ∷ s) =
    let is_region : Option Text → Type 0 = λ r. r ≡ some rest → Region k rest (suc depth) (c ∷ s) in
    branch_on is_region (starts_with (c ∷ s) (opening k))
      (λ e h.
        subst (Region k rest (suc depth)) (sym (split-opening k c s e))
          (Region.opens (Region-behind_region k rest (length (opening k) - 1) (suc depth) s h)))
      (λ o.
        branch_on is_region (starts_with (c ∷ s) (closing k))
          (λ e.
            at_closing k rest (drop (length (closing k) - 1) s) (c ∷ s) depth _
              (split-closing k c s e)
              (λ h d at.
                Region-behind_region k rest (length (closing k) - 1) d s
                  (ap (λ n. behind_region k (length (closing k) - 1) n s) (omega (arith, at)) ∙ h)))
          (λ e h. Region.skips o e (Region-behind_region k rest zero depth s h)))

Region-opening :
    (k : Block) (inner rest : Text)
    → behind_region k 0 0 (opening k ++ inner) ≡ some rest
    → Region k rest 1 inner
Region-opening each_block inner rest h = Region-behind_region each_block rest 0 0 inner h
Region-opening if_block inner rest h = Region-behind_region if_block rest 0 0 inner h

Braced-at :
    (rest : Text) (c depth : ℕ) (s : Text)
    → ((depth : ℕ) → behind_brace (suc depth) s ≡ some rest → Braced rest (suc depth) s)
    → (c == b'{') ≡ false
    → (c == b'}') ≡ true
    → (if suc depth == 1 then some s else behind_brace depth s) ≡ some rest
    → Braced rest (suc depth) (c ∷ s)
Braced-at rest c zero s found o e h =
    subst (λ u. Braced u 1 (c ∷ s)) (some-of h)
      (subst (λ x. Braced s 1 (x ∷ s)) (sym ((==_iff c b'}').0 e)) Braced.ends)
Braced-at rest c (suc d) s found o e h =
    let goes_on : (if suc (suc d) == 1 then some s else behind_brace (suc d) s)
        ≡ behind_brace (suc d) s =
      branch_false (λ r. r ≡ behind_brace (suc d) s) (suc (suc d) == 1) (some s) (ground arith)
        refl in
    subst (λ x. Braced rest (suc (suc d)) (x ∷ s)) (sym ((==_iff c b'}').0 e))
      (Braced.closes (found d (sym goes_on ∙ h)))

Braced-behind_brace :
    (rest : Text) (depth : ℕ) (s : Text)
    → behind_brace (suc depth) s ≡ some rest
    → Braced rest (suc depth) s
Braced-behind_brace rest depth [] = λ h. absurd (some-ne h)
Braced-behind_brace rest depth (c ∷ s) =
    let is_braced : Option Text → Type 0 = λ r. r ≡ some rest → Braced rest (suc depth) (c ∷ s) in
    branch_on is_braced (c == b'{')
      (λ e h.
        subst (λ x. Braced rest (suc depth) (x ∷ s)) (sym ((==_iff c b'{').0 e))
          (Braced.opens (Braced-behind_brace rest (suc depth) s h)))
      (λ o.
        branch_on is_braced (c == b'}')
          (λ e h.
            Braced-at rest c depth s (λ d. Braced-behind_brace rest d s) o e
              (subst (λ n. (if suc depth == 1 then some s else behind_brace n s) ≡ some rest)
                (omega arith) h))
          (λ e h. Braced.skips o e (Braced-behind_brace rest depth s h)))

-- The cut is at a place with the pattern.
abbrev IsCut : Text → Text → Option (Text × Text) → Type 0
IsCut pattern s none = Unit {0}
IsCut pattern s (some (before, at)) =
    (s ≡ before ++ at) × (at ≡ pattern ++ drop (length pattern) at)

put_before-IsCut :
    (pattern : Text) (c : ℕ) (s : Text) (r : Option (Text × Text))
    → IsCut pattern s r
    → IsCut pattern (c ∷ s) (put_before c r)
put_before-IsCut pattern c s none h = tt
put_before-IsCut pattern c s (some (before, at)) (e, p) = (ap (λ t. c ∷ t) e, p)

cut_at-IsCut : (pattern s : Text) → IsCut pattern s (cut_at pattern s)
cut_at-IsCut pattern [] = tt
cut_at-IsCut pattern (c ∷ s) =
    branch_on (IsCut pattern (c ∷ s)) (starts_with (c ∷ s) pattern)
      (λ e. (refl, starts_with-split (c ∷ s) pattern e))
      (λ e. put_before-IsCut pattern c s (cut_at pattern s) (cut_at-IsCut pattern s))

-- The text with stretches taken out, one after the other: each from the pattern to the end of what
-- it opens.
pub data Strips (pattern : Text) (Ends : Text → Text → Type 0) : Text → Text → Type 0 where
  stays : {s : Text} → Strips pattern Ends s s
  cuts :
      (before inner rest : Text) {t : Text}
      → Ends rest inner
      → Strips pattern Ends (before ++ rest) t
      → Strips pattern Ends (before ++ (pattern ++ inner)) t

module _ (pattern : Text) (Ends : Text → Text → Type 0) (behind : Text → Option Text)
    (found : (inner rest : Text) → behind (pattern ++ inner) ≡ some rest → Ends rest inner) where
  -- A round takes one out.
  abbrev CutsOne : Text → Option Text → Type 0
  CutsOne s none = Unit {0}
  CutsOne s (some t) = (u : Text) → Strips pattern Ends t u → Strips pattern Ends s u

  joined-CutsOne :
      (s before inner : Text) (r : Option Text)
      → s ≡ before ++ (pattern ++ inner)
      → ((rest : Text) → r ≡ some rest → Ends rest inner)
      → CutsOne s (joined before r)
  joined-CutsOne s before inner none e h = tt
  joined-CutsOne s before inner (some rest) e h = λ u more.
      subst (λ t. Strips pattern Ends t u) (sym e)
        (Strips.cuts before inner rest (h rest refl) more)

  without-CutsOne :
      (s : Text) (r : Option (Text × Text)) → IsCut pattern s r → CutsOne s (without behind r)
  without-CutsOne s none h = tt
  without-CutsOne s (some (before, at)) (e, p) =
      joined-CutsOne s before (drop (length pattern) at) (behind at) (e ∙ ap (λ t. before ++ t) p)
        (λ rest h. found (drop (length pattern) at) rest (ap behind (sym p) ∙ h))

  next-Strips :
      (cut : Text → Option Text) (fuel : ℕ) (s : Text) (r : Option Text)
      → CutsOne s r
      → ((t : Text) → Strips pattern Ends t (rounds cut fuel t))
      → Strips pattern Ends s (elim r [ none ↦ s | some t ↦ rounds cut fuel t ])
  next-Strips cut fuel s none h rest = Strips.stays
  next-Strips cut fuel s (some t) h rest = h _ (rest t)

  rounds-Strips :
      (fuel : ℕ) (s : Text)
      → Strips pattern Ends s (rounds (λ t. without behind (cut_at pattern t)) fuel s)
  rounds-Strips zero s = Strips.stays
  rounds-Strips (suc fuel) s =
      next-Strips (λ t. without behind (cut_at pattern t)) fuel s
        (without behind (cut_at pattern s))
        (without-CutsOne s (cut_at pattern s) (cut_at-IsCut pattern s)) (rounds-Strips fuel)

-- Only regions are taken out, each from its opening to the closing that matches.
abbrev pub StripsRegions : Block → Text → Text → Type 0
StripsRegions k = Strips (opening k) (λ rest inner. Region k rest 1 inner)

-- Only openings of key blocks are taken out, each up to the brace that matches its first.
abbrev pub StripsKeys : Text → Text → Type 0
StripsKeys = Strips (codes "{#key") (λ rest inner. Braced rest 1 inner)

pub strip_regions-StripsRegions : (k : Block) (s : Text) → StripsRegions k s (strip_regions k s)
unfolding strip_regions cut_region
strip_regions-StripsRegions k s =
    rounds-Strips (opening k) (λ rest inner. Region k rest 1 inner) (behind_region k 0 0)
      (Region-opening k) (length s) s

pub strip_key_openings-StripsKeys : (s : Text) → StripsKeys s (strip_key_openings s)
unfolding strip_key_openings cut_key
strip_key_openings-StripsKeys s =
    rounds-Strips (codes "{#key") (λ rest inner. Braced rest 1 inner) (behind_brace 0)
      (λ inner rest h. Braced-behind_brace rest 0 inner h) (length s) s
