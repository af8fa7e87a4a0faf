-- ===== src/Svelte/Regions.antt =====
-- What a region is: the text from an opening to the closing that matches it, as a relation.
use nafir.Base.{
  ℕ, suc, ◌≡◌, ◌==◌, false, Option, some, ◌∷◌, ◌++◌, Text, starts_with, arith, refl, ap, ◌∙◌,
  branch_false,
}
use nafir.Svelte.{Block, each_block, if_block, opening, closing, behind_region, behind_brace}

-- From a text in which this many regions are open, the text behind the closing of the outermost one.
pub data Region (k : Block) (rest : Text) : ℕ → Text → Type 0 where
  skips :
      {depth : ℕ} {c : ℕ} {s : Text}
      → starts_with (c ∷ s) (opening k) ≡ false
      → starts_with (c ∷ s) (closing k) ≡ false
      → Region k rest depth s
      → Region k rest depth (c ∷ s)
  opens :
      {depth : ℕ} {s : Text} → Region k rest (suc depth) s → Region k rest depth (opening k ++ s)
  closes :
      {depth : ℕ} {s : Text}
      → Region k rest (suc depth) s
      → Region k rest (suc (suc depth)) (closing k ++ s)
  ends : Region k rest 1 (closing k ++ rest)

-- The same for the braces of the opening of a key block.
pub data Braced (rest : Text) : ℕ → Text → Type 0 where
  skips :
      {depth : ℕ} {c : ℕ} {s : Text}
      → (c == b'{') ≡ false
      → (c == b'}') ≡ false
      → Braced rest depth s
      → Braced rest depth (c ∷ s)
  opens : {depth : ℕ} {s : Text} → Braced rest (suc depth) s → Braced rest depth (b'{' ∷ s)
  closes :
      {depth : ℕ} {s : Text} → Braced rest (suc depth) s → Braced rest (suc (suc depth)) (b'}' ∷ s)
  ends : Braced rest 1 (b'}' ∷ rest)

behind_region-opening :
    (k : Block) (depth : ℕ) (s : Text)
    → behind_region k 0 depth (opening k ++ s) ≡ behind_region k 0 (suc depth) s
behind_region-opening each_block depth s = refl
behind_region-opening if_block depth s = refl

behind_region-closing :
    (k : Block) (depth : ℕ) (s : Text)
    → behind_region k 0 (suc (suc depth)) (closing k ++ s) ≡ behind_region k 0 (suc depth) s
behind_region-closing each_block depth s =
    branch_false (λ (r : Option Text). r ≡ behind_region each_block 0 (suc depth) s)
      (suc (suc depth) == 1) (some s) (ground arith)
      (ap (λ d. behind_region each_block 0 d s) (omega arith))
behind_region-closing if_block depth s =
    branch_false (λ (r : Option Text). r ≡ behind_region if_block 0 (suc depth) s)
      (suc (suc depth) == 1) (some s) (ground arith)
      (ap (λ d. behind_region if_block 0 d s) (omega arith))

behind_region-end : (k : Block) (s : Text) → behind_region k 0 1 (closing k ++ s) ≡ some s
behind_region-end each_block s = refl
behind_region-end if_block s = refl

-- The inner loop finds the end of every region.
pub behind_region-Region :
    (k : Block) (rest : Text) {depth : ℕ} {s : Text}
    → Region k rest depth s
    → behind_region k 0 depth s ≡ some rest
behind_region-Region k rest (skips o c r) = rw (o, c) (behind_region-Region k rest r)
behind_region-Region k rest (opens r) = behind_region-opening k _ _ ∙ behind_region-Region k rest r
behind_region-Region k rest (closes r) = behind_region-closing k _ _ ∙ behind_region-Region k rest r
behind_region-Region k rest ends = behind_region-end k rest

behind_brace-closing :
    (depth : ℕ) (s : Text) → behind_brace (suc (suc depth)) (b'}' ∷ s) ≡ behind_brace (suc depth) s
behind_brace-closing depth s =
    branch_false (λ (r : Option Text). r ≡ behind_brace (suc depth) s) (suc (suc depth) == 1)
      (some s) (ground arith) (ap (λ d. behind_brace d s) (omega arith))

pub behind_brace-Braced :
    (rest : Text) {depth : ℕ} {s : Text} → Braced rest depth s → behind_brace depth s ≡ some rest
behind_brace-Braced rest (skips o c r) = rw (o, c) (behind_brace-Braced rest r)
behind_brace-Braced rest (opens r) = behind_brace-Braced rest r
behind_brace-Braced rest (closes {depth} {s} r) =
    behind_brace-closing depth s ∙ behind_brace-Braced rest r
behind_brace-Braced rest ends = refl
