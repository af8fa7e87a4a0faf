-- ===== src/Insert/Gap.antt =====
-- `groupSiblingRows`, `hitSiblingInsertGap` and `resolveInsertHover`: the gap between two siblings
-- that the pointer is in.
pub mod Rows
pub mod Hit
use nafir.Base.{
  ℕ, zero, suc, ◌+◌, ◌*◌, Bool, ◌||◌, ◌&&◌, not, true, false, Option, none, some, List, [], ◌∷◌,
  ◌++◌, if◌then◌else◌, length, ltb,
}
use nafir.Base.Int.{ℤ, pos, ◌+ℤ◌, ◌-ℤ◌, times, ltb_ℤ, leb_ℤ, max_ℤ, min_ℤ, abs}
use nafir.Insert.Axis.{
  Axis, row, column, Position, before, after, Rect, Line, compute_insert_position,
  insert_line_coords,
}

module _ {ℓ} (Element : Type ℓ) where
  pub record Sibling : Type ℓ where
    pub el : Element
    pub rect : Rect

  pub record Hover : Type ℓ where
    pub anchor : Element
    pub position : Position
    pub axis : Axis
    pub line : Line

abbrev pub horizontal_overlap : Rect → Rect → ℤ
horizontal_overlap a b = max_ℤ (pos 0) (min_ℤ a.right b.right -ℤ max_ℤ a.left b.left)

-- `at >= low - slop && at <= high + slop`
abbrev pub near : ℕ → ℤ → ℤ → ℤ → Bool
near slop at low high = leb_ℤ (low -ℤ pos slop) at && leb_ℤ at (high +ℤ pos slop)

module _ {ℓ} {Element : Type ℓ} where
  -- `a.rect.top - b.rect.top || a.rect.left - b.rect.left`, as "a may not stand behind b".
  abbrev pub by_top_left : Sibling Element → Sibling Element → Bool
  by_top_left a b =
      ltb_ℤ a.rect.top b.rect.top || (leb_ℤ a.rect.top b.rect.top && leb_ℤ a.rect.left b.rect.left)

  abbrev pub by_left : Sibling Element → Sibling Element → Bool
  by_left a b = leb_ℤ a.rect.left b.rect.left

  -- `[...list].sort(order)`, which is stable: an element goes in front of its equals behind it.
  pub insert :
      (Sibling Element → Sibling Element → Bool)
      → Sibling Element
      → List (Sibling Element)
      → List (Sibling Element)
  insert order a [] = a ∷ []
  insert order a (b ∷ bs) =
      let rest = insert order a bs in if order a b then a ∷ b ∷ bs else b ∷ rest

  unfoldable pub sort :
      (Sibling Element → Sibling Element → Bool) → List (Sibling Element) → List (Sibling Element)
  unfolding insert
  sort order [] = []
  sort order (a ∷ rest) = insert order a (sort order rest)

  -- The inner loop of `groupSiblingRows`: the first row whose first entry is level with this one
  -- takes it, or it begins a row of its own. A row is given by its first entry and the others.
  pub place :
      ℕ
      → Sibling Element
      → List (Sibling Element × List (Sibling Element))
      → List (Sibling Element × List (Sibling Element))
  place threshold entry [] = (entry, []) ∷ []
  place threshold entry ((first, others) ∷ rows) =
      let rest = place threshold entry rows in
      if leb_ℤ (abs (entry.rect.top -ℤ first.rect.top)) (pos threshold)
      then (first, others ++ entry ∷ []) ∷ rows
      else (first, others) ∷ rest

  pub place_all :
      ℕ
      → List (Sibling Element × List (Sibling Element))
      → List (Sibling Element)
      → List (Sibling Element × List (Sibling Element))
  unfolding place
  place_all threshold rows [] = rows
  place_all threshold rows (entry ∷ entries) =
      place_all threshold (place threshold entry rows) entries

  unfoldable pub group_sibling_rows :
      ℕ → List (Sibling Element) → List (Sibling Element × List (Sibling Element))
  unfolding place_all sort
  group_sibling_rows threshold siblings = place_all threshold [] (sort by_top_left siblings)

  -- What a hit between neighbours in a row, or in a column, returns.
  pub row_hover : Sibling Element → Sibling Element → Hover Element
  row_hover a b =
      let top = max_ℤ a.rect.top b.rect.top in
      let bottom = min_ℤ a.rect.bottom b.rect.bottom in
      record {
        anchor = b.el;
        position = before;
        axis = row;
        line = record {
          axis = row;
          left = a.rect.right +ℤ b.rect.left;
          top = times 2 top;
          width = pos 0;
          height = times 2 (bottom -ℤ top);
        };
      }

  pub column_hover : Sibling Element → Sibling Element → Hover Element
  column_hover a b = record {
    anchor = b.el;
    position = before;
    axis = column;
    line = record {
      axis = column;
      top = a.rect.bottom +ℤ b.rect.top;
      left = times 2 (max_ℤ a.rect.left b.rect.left);
      width = times 2 (horizontal_overlap a.rect b.rect);
      height = pos 0;
    };
  }

  -- One round over neighbours in a row, with the default overlap of a quarter.
  pub row_gap : ℕ → ℤ → ℤ → Sibling Element → Sibling Element → Option (Hover Element)
  unfolding row_hover
  row_gap slop x y a b =
      let top = max_ℤ a.rect.top b.rect.top in
      let bottom = min_ℤ a.rect.bottom b.rect.bottom in
      if leb_ℤ b.rect.left a.rect.right
      then none
      else if ltb_ℤ (times 4 (bottom -ℤ top)) (min_ℤ a.rect.height b.rect.height)
      then none
      else if not (near slop x a.rect.right b.rect.left) || not (near slop y top bottom)
      then none
      else some (row_hover a b)

  -- One round over neighbours in the list sorted from the top.
  pub column_gap : ℕ → ℤ → ℤ → Sibling Element → Sibling Element → Option (Hover Element)
  unfolding column_hover
  column_gap slop x y a b =
      if ltb_ℤ (times 4 (horizontal_overlap a.rect b.rect)) (min_ℤ a.rect.width b.rect.width)
      then none
      else if leb_ℤ b.rect.top a.rect.bottom
      then none
      else if not (near slop y a.rect.bottom b.rect.top)
          || not (near slop x (max_ℤ a.rect.left b.rect.left) (min_ℤ a.rect.right b.rect.right))
      then none
      else some (column_hover a b)

  -- The first neighbours, from the left, for which `gap` finds something.
  unfoldable pub first_gap :
      (Sibling Element → Sibling Element → Option (Hover Element))
      → List (Sibling Element)
      → Option (Hover Element)
  first_gap gap [] = none
  first_gap gap (a ∷ []) = none
  first_gap gap (a ∷ b ∷ rest) = elim (gap a b) [
    | some hit ↦ some hit
    | none ↦ first_gap gap (b ∷ rest)
  ]

  pub first_row_gap :
      ℕ → ℤ → ℤ → List (Sibling Element × List (Sibling Element)) → Option (Hover Element)
  first_row_gap slop x y [] = none
  first_row_gap slop x y ((first, others) ∷ rows) =
      elim (first_gap (row_gap slop x y) (sort by_left (first ∷ others))) [
        | some hit ↦ some hit
        | none ↦ first_row_gap slop x y rows
      ]

  -- 8 pixels between the tops of a row, and 12 around a gap.
  unfoldable pub hit_sibling_insert_gap :
      ℕ → ℤ → ℤ → List (Sibling Element) → Option (Hover Element)
  unfolding first_row_gap first_gap row_gap column_gap group_sibling_rows
  hit_sibling_insert_gap px x y siblings =
      if ltb (length siblings) 2
      then none
      else elim (first_row_gap (12 * px) x y (group_sibling_rows (8 * px) siblings)) [
        | some hit ↦ some hit
        | none ↦ first_gap (column_gap (12 * px) x y) (sort by_top_left siblings)
      ]

  pub resolve_insert_hover :
      ℕ → ℤ → ℤ → Element → Rect → Axis → List (Sibling Element) → Hover Element
  unfolding hit_sibling_insert_gap compute_insert_position insert_line_coords
  resolve_insert_hover px x y target rect axis siblings =
      elim (hit_sibling_insert_gap px x y siblings) [
        | some hit ↦ hit
        | none ↦
            let position = compute_insert_position x y (some rect) axis in
            record {
              anchor = target;
              position = position;
              axis = axis;
              line = insert_line_coords px rect position axis;
            }
      ]
