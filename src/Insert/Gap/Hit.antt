-- ===== src/Insert/Gap/Hit.antt =====
-- What a hit of `hitSiblingInsertGap` means.
use nafir.Base.{
  ℕ, ◌+◌, ◌*◌, ◌≡◌, ◌<◌, true, false, Option, some, List, [], ◌∷◌, Option-cases, ◌∙◌, Bool-cases,
  inl, inr, refl, arith, ltb, length,
}
use nafir.Base.Int.{ℤ, pos, ◌-ℤ◌, ◌+ℤ◌, ◌≤ℤ◌, leb_ℤ, pos_part, neg_part}
use mathlib.Core.List.{Mem, Memᴰ, mem-append_left, mem-append_right}
use mathlib.Core.List.Perm
use mathlib.Core.Path.{subst}
use mathlib.Core.Logic.{∥∥₁_map}
use nafir.Insert.Axis.{Axis, row, column, before}
use nafir.Insert.Gap.{
  Sibling, Hover, sort, by_left, by_top_left, near, row_hover, column_hover, row_gap, column_gap,
  first_gap, first_row_gap, group_sibling_rows, hit_sibling_insert_gap,
}
use nafir.Insert.Gap.Rows.{members, sort-perm, group_sibling_rows_lem}

infix 50 ◌<ℤ◌
abbrev pub ◌<ℤ◌ : ℤ → ℤ → Type 0
a <ℤ b = pos_part a + neg_part b < pos_part b + neg_part a

module _ {ℓ} {Element : Type ℓ} where
  -- The neighbours are apart on the axis of the hit, and the pointer is at most `slop` outside the
  -- gap between them on that axis.
  abbrev pub IsBetween : ℕ → ℤ → ℤ → Sibling Element → Sibling Element → Axis → Type 0
  IsBetween slop x y a b row =
      (a.rect.right <ℤ b.rect.left)
      × (a.rect.right -ℤ pos slop ≤ℤ x)
      × (x ≤ℤ b.rect.left +ℤ pos slop)
  IsBetween slop x y a b column =
      (a.rect.bottom <ℤ b.rect.top)
      × (a.rect.bottom -ℤ pos slop ≤ℤ y)
      × (y ≤ℤ b.rect.top +ℤ pos slop)

  abbrev pub IsHit : ℕ → ℤ → ℤ → Hover Element → Sibling Element → Sibling Element → Type ℓ
  IsHit slop x y h a b = (h.anchor ≡ b.el) × (h.position ≡ before) × IsBetween slop x y a b h.axis

  row_gap-hover :
      (slop : ℕ) (x y : ℤ) (a b : Sibling Element) (h : Hover Element)
      → row_gap slop x y a b ≡ some h
      → (row_hover a b ≡ h)
        × (leb_ℤ b.rect.left a.rect.right ≡ false)
        × (near slop x a.rect.right b.rect.left ≡ true)
  unfolding row_gap
  row_gap-hover slop x y a b h e = ground arith

  row_hover-IsHit :
      (slop : ℕ) (x y : ℤ) (a b : Sibling Element)
      → leb_ℤ b.rect.left a.rect.right ≡ false
      → near slop x a.rect.right b.rect.left ≡ true
      → IsHit slop x y (row_hover a b) a b
  unfolding row_hover
  row_hover-IsHit slop x y a b apart close = (refl, refl, ground arith)

  row_gap-IsHit :
      (slop : ℕ) (x y : ℤ) (a b : Sibling Element) (h : Hover Element)
      → row_gap slop x y a b ≡ some h
      → IsHit slop x y h a b
  unfolding row_gap
  row_gap-IsHit slop x y a b h e =
      subst (λ k. IsHit slop x y k a b) (row_gap-hover slop x y a b h e).0
        (row_hover-IsHit slop x y a b (row_gap-hover slop x y a b h e).1
          (row_gap-hover slop x y a b h e).2)

  column_gap-hover :
      (slop : ℕ) (x y : ℤ) (a b : Sibling Element) (h : Hover Element)
      → column_gap slop x y a b ≡ some h
      → (column_hover a b ≡ h)
        × (leb_ℤ b.rect.top a.rect.bottom ≡ false)
        × (near slop y a.rect.bottom b.rect.top ≡ true)
  unfolding column_gap
  column_gap-hover slop x y a b h e = ground arith

  column_hover-IsHit :
      (slop : ℕ) (x y : ℤ) (a b : Sibling Element)
      → leb_ℤ b.rect.top a.rect.bottom ≡ false
      → near slop y a.rect.bottom b.rect.top ≡ true
      → IsHit slop x y (column_hover a b) a b
  unfolding column_hover
  column_hover-IsHit slop x y a b apart close = (refl, refl, ground arith)

  column_gap-IsHit :
      (slop : ℕ) (x y : ℤ) (a b : Sibling Element) (h : Hover Element)
      → column_gap slop x y a b ≡ some h
      → IsHit slop x y h a b
  unfolding column_gap
  column_gap-IsHit slop x y a b h e =
      subst (λ k. IsHit slop x y k a b) (column_gap-hover slop x y a b h e).0
        (column_hover-IsHit slop x y a b (column_gap-hover slop x y a b h e).1
          (column_gap-hover slop x y a b h e).2)

  first_gap-some :
      (gap : Sibling Element → Sibling Element → Option (Hover Element))
      (l : List (Sibling Element)) (h : Hover Element)
      → first_gap gap l ≡ some h
      → (a : Sibling Element) × (b : Sibling Element) × Mem a l × Mem b l × (gap a b ≡ some h)
  unfolding first_gap
  first_gap-some gap [] h e = cc
  first_gap-some gap (a ∷ []) h e = cc
  first_gap-some gap (a ∷ b ∷ rest) h e = elim (Option-cases (gap a b)) [
    | inl missed ↦
        let (a', b', in_a, in_b, found) =
          first_gap-some gap (b ∷ rest) h (rw (missed, first_gap) at e) in
        (a', b', ∥∥₁_map in_a Memᴰ.tail, ∥∥₁_map in_b Memᴰ.tail, found)
    | inr (k, hit) ↦ (
      a,
      b,
      ∣ Memᴰ.head refl ∣₁,
      ∣ Memᴰ.tail (Memᴰ.head refl) ∣₁,
      hit ∙ (rw (hit, first_gap) at e),
    )
  ]

  -- The neighbours of a hit are siblings of the list, and the hit is theirs.
  abbrev Found : ℕ → ℤ → ℤ → List (Sibling Element) → Hover Element → Type ℓ
  Found slop x y l h =
      (a : Sibling Element) × (b : Sibling Element) × Mem a l × Mem b l × IsHit slop x y h a b

  first_row_gap-Found :
      (slop : ℕ) (x y : ℤ) (rows : List (Sibling Element × List (Sibling Element)))
      (h : Hover Element)
      → first_row_gap slop x y rows ≡ some h
      → Found slop x y (members rows) h
  unfolding first_row_gap
  first_row_gap-Found slop x y [] h e = cc
  first_row_gap-Found slop x y ((first, others) ∷ rows) h e =
      elim (Option-cases (first_gap (row_gap slop x y) (sort by_left (first ∷ others)))) [
        | inl missed ↦
            let (a, b, in_a, in_b, hit) =
              first_row_gap-Found slop x y rows h (rw (missed, first_row_gap) at e) in
            (
              a,
              b,
              mem-append_right (first ∷ others) in_a,
              mem-append_right (first ∷ others) in_b,
              hit,
            )
        | inr (k, found) ↦
            let same : some k ≡ some h = rw (found, first_row_gap) at e in
            let (a, b, in_a, in_b, gap) =
              first_gap-some (row_gap slop x y) (sort by_left (first ∷ others)) h (found ∙ same) in
            (
              a,
              b,
              mem-append_left (members rows)
                  ((Perm.mem_iff (sort-perm by_left (first ∷ others))).0 in_a),
              mem-append_left (members rows)
                  ((Perm.mem_iff (sort-perm by_left (first ∷ others))).0 in_b),
              row_gap-IsHit slop x y a b h gap,
            )
      ]

  -- A hit is between two of the siblings: its anchor is the second one, before which the element
  -- goes, the two do not touch on the axis of the hit, and the pointer is at most 12 pixels outside
  -- the gap between them on that axis.
  pub hit_sibling_insert_gap-IsHit :
      (px : ℕ) (x y : ℤ) (siblings : List (Sibling Element)) (h : Hover Element)
      → hit_sibling_insert_gap px x y siblings ≡ some h
      → (a : Sibling Element) × (b : Sibling Element) × Mem a siblings
        × Mem b siblings
        × IsHit (12 * px) x y h a b
  unfolding hit_sibling_insert_gap
  hit_sibling_insert_gap-IsHit px x y siblings h e = elim (Bool-cases (ltb (length siblings) 2)) [
    | inl few ↦ cc (rw (few, hit_sibling_insert_gap) at e)
    | inr enough ↦
        elim (Option-cases (first_row_gap (12 * px) x y (group_sibling_rows (8 * px) siblings))) [
          | inl missed ↦
              let (a, b, in_a, in_b, gap) =
                first_gap-some (column_gap (12 * px) x y) (sort by_top_left siblings) h
                  (rw (enough, missed, hit_sibling_insert_gap) at e) in
              (
                a,
                b,
                (Perm.mem_iff (sort-perm by_top_left siblings)).0 in_a,
                (Perm.mem_iff (sort-perm by_top_left siblings)).0 in_b,
                column_gap-IsHit (12 * px) x y a b h gap,
              )
          | inr (k, found) ↦
              let same : some k ≡ some h = rw (enough, found, hit_sibling_insert_gap) at e in
              let (a, b, in_a, in_b, hit) =
                first_row_gap-Found (12 * px) x y (group_sibling_rows (8 * px) siblings) h
                  (found ∙ same) in
              (
                a,
                b,
                (Perm.mem_iff (group_sibling_rows_lem (8 * px) siblings).0).0 in_a,
                (Perm.mem_iff (group_sibling_rows_lem (8 * px) siblings).0).0 in_b,
                hit,
              )
        ]
  ]
