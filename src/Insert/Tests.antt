-- ===== src/Insert/Tests.antt =====
-- The laws of insert mode at inputs, and tests.
use nafir.Base.{ℕ, ◌+◌, ◌≡◌, some, List, [], ◌∷◌, All, codes, refl, trim}
use nafir.Base.Int.{pos, ◌+ℤ◌, ◌-ℤ◌, times, max_ℤ, min_ℤ, abs}
use mathlib.Core.List.{Mem, Perm}
use nafir.Insert.Axis.{row, Rect, Style, detect_insert_axis_from_style}
use nafir.Insert.Gap.{Sibling, group_sibling_rows, hit_sibling_insert_gap, row_hover}
use nafir.Insert.Gap.Rows.{members, IsLevel, group_sibling_rows_lem}
use nafir.Insert.Gap.Hit.{IsHit, hit_sibling_insert_gap-IsHit}
use nafir.Insert.Placeholder.{west, Frame, resize_placeholder_from_edge}

abbrev rect_at : ℕ → ℕ → Rect
rect_at x y = record {
  left = pos x;
  top = pos y;
  right = pos (x + 100);
  bottom = pos (y + 40);
  width = pos 100;
  height = pos 40;
}

abbrev first : Sibling ℕ
first = record { el = 1; rect = rect_at 0 0 }

abbrev second : Sibling ℕ
second = record { el = 2; rect = rect_at 120 4 }

abbrev pair : List (Sibling ℕ)
pair = second ∷ first ∷ []

hit_test : hit_sibling_insert_gap 1 (pos 108) (pos 20) pair ≡ some (row_hover first second)
unfolding hit_sibling_insert_gap max_ℤ min_ℤ abs ◌-ℤ◌ ◌+ℤ◌ times
hit_test = refl

hit_sibling_insert_gap-IsHit_example :
    (a : Sibling ℕ) × (b : Sibling ℕ) × Mem a pair
    × Mem b pair
    × IsHit 12 (pos 108) (pos 20) (row_hover first second) a b
hit_sibling_insert_gap-IsHit_example =
    hit_sibling_insert_gap-IsHit 1 (pos 108) (pos 20) pair (row_hover first second) hit_test

group_sibling_rows_lem_example :
    Perm (members (group_sibling_rows 8 pair)) pair × All (IsLevel 8) (group_sibling_rows 8 pair)
group_sibling_rows_lem_example = group_sibling_rows_lem 8 pair

abbrev start : Frame
start = record { width = pos 300; height = pos 80; margin_left = pos 10; margin_top = pos 0 }

resize_test :
    resize_placeholder_from_edge start west (pos 250) (pos 0) 600
    ≡ record { width = pos 120; height = pos 80; margin_left = pos 190; margin_top = pos 0 }
unfolding resize_placeholder_from_edge max_ℤ min_ℤ ◌-ℤ◌ ◌+ℤ◌
resize_test = refl

abbrev one_column : Style
one_column = record {
  display = codes "grid";
  flex_direction = [];
  grid_auto_flow = codes "row";
  grid_template_columns = codes "1fr";
}

-- A grid of one column, whose items stand below each other, is given the row axis.
one_column_is_row : detect_insert_axis_from_style one_column ≡ row
unfolding detect_insert_axis_from_style trim
one_column_is_row = refl
