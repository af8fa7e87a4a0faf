-- ===== src/Insert/Axis.antt =====
-- `detectInsertAxisFromStyle`, `computeInsertPosition` and `insertLineCoords`. A coordinate is a whole
-- number of units, of which `px` make a pixel; a line is given in half units, so that the middle of
-- two edges is exact.
pub mod Laws
use nafir.Base.{
  ℕ, suc, ◌+◌, ◌*◌, Bool, ◌||◌, ◌&&◌, not, true, false, Option, none, some, List, [], ◌∷◌,
  if◌then◌else◌, ltb, ◌==◌, Text, codes, is_empty, is_space, text_eq, starts_with, index_of, trim,
}
use nafir.Base.Int.{ℤ, pos, ◌+ℤ◌, ◌-ℤ◌, times, ltb_ℤ, leb_ℤ}

pub data Axis : Type 0 where
  row column : Axis

pub data Position : Type 0 where
  before after : Position

-- `s || d`
abbrev pub or_default : Text → Text → Text
or_default [] d = d
or_default (c ∷ s) d = c ∷ s

-- `s.includes(t)`
abbrev pub includes : Text → Text → Bool
includes s t = elim (index_of t s) [ none ↦ false | some _ ↦ true ]

-- The words of `s.split(/\s+/).filter(Boolean)`, counted; the flag says that a word is under way.
word_count : Bool → Text → ℕ
word_count inside [] = 0
word_count inside (c ∷ s) =
    let rest = word_count (not (is_space c)) s in if is_space c || inside then rest else suc rest

-- The four computed styles that are read.
pub record Style : Type 0 where
  pub display : Text
  pub flex_direction : Text
  pub grid_auto_flow : Text
  pub grid_template_columns : Text

abbrev pub is_grid : Text → Bool
is_grid display = text_eq display (codes "grid") || text_eq display (codes "inline-grid")

grid_axis : Text → Text → Axis
unfolding word_count
grid_axis flow columns =
    if includes flow (codes "column")
    then column
    else if not (is_empty columns) && not (text_eq columns (codes "none"))
    then (if ltb 1 (word_count false columns) then row else row)
    else row

unfoldable pub detect_insert_axis_from_style : Style → Axis
unfolding grid_axis
detect_insert_axis_from_style style =
    let display = or_default style.display (codes "block") in
    if includes display (codes "flex")
    then (if starts_with (or_default style.flex_direction (codes "row")) (codes "row")
        then row
        else column)
    else if is_grid display
    then grid_axis (or_default style.grid_auto_flow (codes "row"))
        (trim style.grid_template_columns)
    else column

-- A `DOMRect`.
pub record Rect : Type 0 where
  pub left : ℤ
  pub top : ℤ
  pub right : ℤ
  pub bottom : ℤ
  pub width : ℤ
  pub height : ℤ

-- The first half of an extent that begins at `start`.
first_half : ℤ → ℤ → ℤ → Position
first_half at start extent =
    if leb_ℤ extent (pos 0)
    then after
    else if ltb_ℤ (times 2 at) (times 2 start +ℤ extent)
    then before
    else after

unfoldable pub compute_insert_position : ℤ → ℤ → Option Rect → Axis → Position
unfolding first_half
compute_insert_position x y none axis = after
compute_insert_position x y (some rect) row = first_half x rect.left rect.width
compute_insert_position x y (some rect) column = first_half y rect.top rect.height

pub record Line : Type 0 where
  pub axis : Axis
  pub left : ℤ
  pub top : ℤ
  pub width : ℤ
  pub height : ℤ

abbrev pub edge : ℕ → Position → ℤ → ℤ → ℤ
edge px before low high = low -ℤ pos (2 * px)
edge px after low high = high +ℤ pos (2 * px)

unfoldable pub insert_line_coords : ℕ → Rect → Position → Axis → Line
insert_line_coords px rect position row = record {
  axis = row;
  left = times 2 (edge px position rect.left rect.right);
  top = times 2 rect.top;
  width = pos 0;
  height = times 2 rect.height;
}
insert_line_coords px rect position column = record {
  axis = column;
  left = times 2 rect.left;
  top = times 2 (edge px position rect.top rect.bottom);
  width = times 2 rect.width;
  height = pos 0;
}
