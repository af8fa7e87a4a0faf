-- ===== src/Svelte/Tests.antt =====
-- The laws of the stripping at an input, and tests.
use nafir.Base.{◌≡◌, refl, codes}
use nafir.Svelte.{if_block, strip_key_openings, strip_regions, strip_svelte_block_regions}
use nafir.Svelte.Strips.{StripsRegions, StripsKeys}
use nafir.Svelte.Ends.{IsOver, IsKeyOver, strip_svelte_block_regions-IsOver}

strip_svelte_block_regions-IsOver_example :
    StripsKeys (codes "a{#if x}b{/if}{#if y}") (strip_key_openings (codes "a{#if x}b{/if}{#if y}"))
    × IsKeyOver (strip_key_openings (codes "a{#if x}b{/if}{#if y}"))
    × StripsRegions if_block
        (codes "a{#if x}b{/if}{#if y}")
        (strip_regions if_block (codes "a{#if x}b{/if}{#if y}"))
    × IsOver if_block (strip_regions if_block (codes "a{#if x}b{/if}{#if y}"))
    × IsOver if_block (strip_svelte_block_regions (codes "a{#if x}b{/if}{#if y}"))
strip_svelte_block_regions-IsOver_example =
    strip_svelte_block_regions-IsOver if_block (codes "a{#if x}b{/if}{#if y}")

nested_regions :
    strip_svelte_block_regions (codes "<p>{#if a}{#if b}x{/if}{/if}{#key {n: 1}}y{/key}</p>")
    ≡ codes "<p>y</p>"
unfolding strip_svelte_block_regions
nested_regions = refl
