-- ===== src/Insert/Placeholder.antt =====
-- The placeholder of insert mode: its sizing in the layout, when it may be created, and how dragging
-- an edge resizes it. Sizes are whole pixels, so that `Math.round` changes none.
pub mod Resize
use nafir.Base.{
  ℕ, ◌+◌, max, Bool, ◌||◌, ◌&&◌, not, true, false, Option, none, some, List, [], ◌∷◌, ◌++◌,
  if◌then◌else◌, leb, ltb, ◌==◌, any, length, Text, codes, is_empty, text_eq, trim,
}
use nafir.Base.Int.{ℤ, pos, ◌+ℤ◌, ◌-ℤ◌, max_ℤ, min_ℤ}
use nafir.Value.{decimal}
use nafir.Insert.Axis.{Axis, row, column, or_default, includes, is_grid}

abbrev pub min_width : ℕ
min_width = 120

abbrev pub min_height : ℕ
min_height = 48

pub data Sizing : Type 0 where
  flex : Text → Sizing
  auto percent : Sizing
  explicit : ℕ → Sizing

-- `anchorFlex && anchorFlex !== 'none' && anchorFlex !== '0 1 auto' ? anchorFlex : '1 1 0'`
own_flex : Text → Text
own_flex anchor_flex =
    if not (is_empty anchor_flex)
      && not (text_eq anchor_flex (codes "none"))
      && not (text_eq anchor_flex (codes "0 1 auto"))
    then anchor_flex
    else codes "1 1 0"

-- A width that is not finite counts as 0.
block_sizing : Option ℕ → Sizing
block_sizing none = explicit min_width
block_sizing (some w) =
    if leb min_width w then percent else explicit (max min_width (if w == 0 then min_width else w))

pub placeholder_sizing : Axis → Text → Option ℕ → Text → Sizing
unfolding own_flex block_sizing
placeholder_sizing row parent_display parent_width anchor_flex =
    let display = or_default parent_display (codes "block") in
    if includes display (codes "flex")
    then flex (own_flex anchor_flex)
    else if is_grid display
    then auto
    else block_sizing parent_width
placeholder_sizing column parent_display parent_width anchor_flex = block_sizing parent_width

-- The inline styles of the placeholder that sizing writes, and the kind that its dataset keeps.
pub record Styles : Type 0 where
  pub kind : Text
  pub flex : Text
  pub min_width : Text
  pub max_width : Text
  pub width : Text

abbrev pub kind_of : Sizing → Text
kind_of (flex f) = codes "flex"
kind_of auto = codes "auto"
kind_of percent = codes "percent"
kind_of (explicit w) = codes "explicit"

-- `w + 'px'`
unfoldable pub pixels : ℕ → Text
unfolding decimal
pixels w = decimal w ++ codes "px"

abbrev blank : Sizing → Styles
blank sizing = record {
  kind = kind_of sizing;
  flex = [];
  min_width = [];
  max_width = [];
  width = [];
}

pub apply_placeholder_sizing_styles : Sizing → Styles
unfolding pixels
apply_placeholder_sizing_styles (flex f) = record (blank (flex f)) {
  flex = f;
  min_width = pixels 0;
}
apply_placeholder_sizing_styles auto = blank auto
apply_placeholder_sizing_styles percent = record (blank percent) {
  width = codes "100%";
  max_width = codes "100%";
}
apply_placeholder_sizing_styles (explicit w) = record (blank (explicit w)) { width = pixels w }

abbrev pub placeholder_width_is_implicit : Text → Bool
placeholder_width_is_implicit kind =
    text_eq kind (codes "flex") || text_eq kind (codes "percent") || text_eq kind (codes "auto")

-- The current width is `offsetWidth`, a whole number.
pub materialize_placeholder_width : ℕ → Styles → Styles
unfolding pixels
materialize_placeholder_width offset_width s =
    if not (placeholder_width_is_implicit s.kind) then s else record {
      kind = codes "explicit";
      flex = [];
      min_width = [];
      max_width = [];
      width = pixels (max min_width offset_width);
    }

-- What the user gave before creating: a prompt, comments, and strokes by their number of points. A
-- field that is missing or of another type is `none`.
pub record Draft : Type 0 where
  pub prompt : Option Text
  pub comments : Option ℕ
  pub strokes : Option (List ℕ)

has_prompt : Option Text → Bool
has_prompt none = false
has_prompt (some t) = not (is_empty (trim t))

has_comments : Option ℕ → Bool
has_comments none = false
has_comments (some n) = ltb 0 n

has_strokes : Option (List ℕ) → Bool
has_strokes none = false
has_strokes (some strokes) = any (leb 2) strokes

pub can_create_insert : Draft → Bool
unfolding has_prompt has_comments has_strokes
can_create_insert d = has_prompt d.prompt || has_comments d.comments || has_strokes d.strokes

pub insert_create_disabled_reason : Draft → Option Text
unfolding can_create_insert
insert_create_disabled_reason d =
    if can_create_insert d
    then none
    else some (codes "Add a prompt or annotate the placeholder to create")

pub record Size : Type 0 where
  pub width : ℤ
  pub height : ℤ

-- `parentWidth || PLACEHOLDER_MIN_WIDTH`
abbrev pub max_width : ℕ → ℕ
max_width parent_width = max min_width (if parent_width == 0 then min_width else parent_width)

pub clamp_placeholder_size : ℤ → ℤ → ℕ → Size
clamp_placeholder_size width height parent_width = record {
  width = min_ℤ (pos (max_width parent_width)) (max_ℤ (pos min_width) width);
  height = max_ℤ (pos min_height) height;
}

pub data Edge : Type 0 where
  east west south north : Edge

pub record Frame : Type 0 where
  pub width : ℤ
  pub height : ℤ
  pub margin_left : ℤ
  pub margin_top : ℤ

-- The frame before clamping.
dragged : Frame → Edge → ℤ → ℤ → Frame
dragged f east dx dy = record f { width = f.width +ℤ dx }
dragged f west dx dy = record f { width = f.width -ℤ dx; margin_left = f.margin_left +ℤ dx }
dragged f south dx dy = record f { height = f.height +ℤ dy }
dragged f north dx dy = record f { height = f.height -ℤ dy; margin_top = f.margin_top +ℤ dy }

left_margin : Frame → Frame → Size → Edge → ℤ
left_margin f base clamped west = f.margin_left +ℤ f.width -ℤ clamped.width
left_margin f base clamped _ = base.margin_left

top_margin : Frame → Frame → Size → Edge → ℤ
top_margin f base clamped north = f.margin_top +ℤ f.height -ℤ clamped.height
top_margin f base clamped _ = base.margin_top

unfoldable pub resize_placeholder_from_edge : Frame → Edge → ℤ → ℤ → ℕ → Frame
unfolding dragged left_margin top_margin clamp_placeholder_size
resize_placeholder_from_edge f edge dx dy parent_width =
    let base = dragged f edge dx dy in
    let clamped = clamp_placeholder_size base.width base.height parent_width in
    record {
      width = clamped.width;
      height = clamped.height;
      margin_left = left_margin f base clamped edge;
      margin_top = top_margin f base clamped edge;
    }
