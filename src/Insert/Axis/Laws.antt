-- ===== src/Insert/Axis/Laws.antt =====
-- Where `computeInsertPosition` puts an element, and what a grid's columns do.
use nafir.Base.{◌+◌, ◌*◌, ◌≡◌, ◌<◌, ◌↔◌, some, ap, arith}
use nafir.Base.Int.{ℤ, pos, ◌+ℤ◌, ◌-ℤ◌, times, pos_part, neg_part, +ℤ_parts, -ℤ_parts}
use nafir.Insert.Axis.{Axis, row, column, before, Rect, first_half, compute_insert_position}

infix 50 ◌<ℤ◌
abbrev pub ◌<ℤ◌ : ℤ → ℤ → Type 0
a <ℤ b = pos_part a + neg_part b < pos_part b + neg_part a

times_2 : (a : ℤ) → (pos_part (times 2 a) + 2 * neg_part a ≡ 2 * pos_part a + neg_part (times 2 a))
unfolding times
times_2 a = ground arith

-- The extent of a rectangle along an axis: where it begins and ends, and the pointer on it.
abbrev pub low : Axis → Rect → ℤ
low row r = r.left
low column r = r.top

abbrev pub high : Axis → Rect → ℤ
high row r = r.right
high column r = r.bottom

abbrev pub size : Axis → Rect → ℤ
size row r = r.width
size column r = r.height

abbrev pub along : Axis → ℤ → ℤ → ℤ
along row x y = x
along column x y = y

first_half_iff :
    (at start end extent : ℤ)
    → end ≡ start +ℤ extent
    → pos 0 <ℤ extent
    → (first_half at start extent ≡ before) ↔ (at -ℤ start <ℤ end -ℤ at)
unfolding first_half
first_half_iff at start end extent same positive = ground (
  arith,
  +ℤ_parts (times 2 start) extent,
  +ℤ_parts start extent,
  -ℤ_parts at start,
  -ℤ_parts end at,
  times_2 at,
  times_2 start,
  ap pos_part same,
  ap neg_part same,
)

-- On a rectangle whose far edge is its near edge and its extent, and whose extent is positive, the
-- element goes before the target exactly if the pointer is nearer to the near edge.
pub compute_insert_position_iff :
    (x y : ℤ) (r : Rect) (axis : Axis)
    → high axis r ≡ low axis r +ℤ size axis r
    → pos 0 <ℤ size axis r
    → (compute_insert_position x y (some r) axis ≡ before)
      ↔ (along axis x y -ℤ low axis r <ℤ high axis r -ℤ along axis x y)
unfolding compute_insert_position
compute_insert_position_iff x y r row = first_half_iff x r.left r.right r.width
compute_insert_position_iff x y r column = first_half_iff y r.top r.bottom r.height
