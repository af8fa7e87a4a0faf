-- ===== src/Svelte.antt =====
-- The stripping of Svelte blocks from a source, live-browser.js: `stripSvelteBlockRegions` and
-- `stripSvelteKeyDelimiters`. Their loops run on fuel, one round for each unit of the source, since
-- a round that does not end the loop drops one unit at least.
pub mod Regions
pub mod Strips
pub mod Ends
mod Tests
use nafir.Base.{
  ℕ, zero, suc, ◌-◌, Bool, true, false, ◌==◌, Option, none, some, List, [], ◌∷◌, ◌++◌,
  if◌then◌else◌, Text, codes, starts_with, length, drop,
}

abbrev pub put_before : ℕ → Option (Text × Text) → Option (Text × Text)
put_before c none = none
put_before c (some (before, at)) = some (c ∷ before, at)

-- The text cut at `indexOf(pattern)`, for a pattern that is not empty.
abbrev pub cut_at : Text → Text → Option (Text × Text)
cut_at pattern [] = none
cut_at pattern (c ∷ s) =
    let later = put_before c (cut_at pattern s) in
    if starts_with (c ∷ s) pattern then some ([], c ∷ s) else later

-- `each` and `if`, with the delimiters of their regions
pub data Block : Type 0 where
  each_block if_block : Block

abbrev pub opening : Block → Text
opening each_block = codes "{#each"
opening if_block = codes "{#if"

abbrev pub closing : Block → Text
closing each_block = codes "{/each}"
closing if_block = codes "{/if}"

-- The inner loop of `stripSvelteBlockRegions`: what is behind the end of the region, if it has one.
-- `skip` units of a delimiter are still to pass, and `depth` regions are open; the loop begins at
-- an opening, so one is open at each closing.
abbrev pub behind_region : Block → ℕ → ℕ → Text → Option Text
behind_region k skip depth [] = none
behind_region k (suc skip) depth (c ∷ s) = behind_region k skip depth s
behind_region k zero depth (c ∷ s) =
    let inner = behind_region k (length (opening k) - 1) (suc depth) s in
    let outer = behind_region k (length (closing k) - 1) (depth - 1) s in
    let next = behind_region k zero depth s in
    if starts_with (c ∷ s) (opening k)
    then inner
    else if starts_with (c ∷ s) (closing k)
    then (if depth == 1 then some (drop (length (closing k) - 1) s) else outer)
    else next

-- The loop of `stripSvelteKeyDelimiters`: what is behind the brace that closes the first one.
abbrev pub behind_brace : ℕ → Text → Option Text
behind_brace depth [] = none
behind_brace depth (c ∷ s) =
    let inner = behind_brace (suc depth) s in
    let outer = behind_brace (depth - 1) s in
    let next = behind_brace depth s in
    if c == b'{' then inner else if c == b'}' then (if depth == 1 then some s else outer) else next

abbrev pub joined : Text → Option Text → Option Text
joined before none = none
joined before (some rest) = some (before ++ rest)

abbrev pub without : (Text → Option Text) → Option (Text × Text) → Option Text
without behind none = none
without behind (some (before, at)) = joined before (behind at)

-- One round of the loop over the regions: the source without its first region, `none` for `break`.
unfoldable pub cut_region : Block → Text → Option Text
cut_region k s = without (behind_region k 0 0) (cut_at (opening k) s)

-- One round of the loop over the openings of `{#key}`
unfoldable pub cut_key : Text → Option Text
cut_key s = without (behind_brace 0) (cut_at (codes "{#key") s)

-- `for (;;)` over a round
abbrev pub rounds : (Text → Option Text) → ℕ → Text → Text
rounds cut zero s = s
rounds cut (suc fuel) s = elim (cut s) [ none ↦ s | some t ↦ rounds cut fuel t ]

-- `split(pattern).join('')`, with `skip` units of the pattern still to pass
abbrev pub removed : Text → ℕ → Text → Text
removed pattern skip [] = []
removed pattern (suc skip) (c ∷ s) = removed pattern skip s
removed pattern zero (c ∷ s) =
    let past = removed pattern (length pattern - 1) s in
    let kept = c ∷ removed pattern zero s in if starts_with (c ∷ s) pattern then past else kept

unfoldable pub strip_key_openings : Text → Text
unfolding cut_key
strip_key_openings s = rounds cut_key (length s) s

-- `stripSvelteKeyDelimiters`
unfoldable pub strip_svelte_key_delimiters : Text → Text
unfolding strip_key_openings
strip_svelte_key_delimiters s = removed (codes "{/key}") 0 (strip_key_openings s)

unfoldable pub strip_regions : Block → Text → Text
unfolding cut_region
strip_regions k s = rounds (cut_region k) (length s) s

-- `stripSvelteBlockRegions`
unfoldable pub strip_svelte_block_regions : Text → Text
unfolding strip_svelte_key_delimiters strip_regions
strip_svelte_block_regions s =
    strip_regions if_block (strip_regions each_block (strip_svelte_key_delimiters s))
