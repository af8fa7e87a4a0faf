-- ===== src/Insert/Gap/Rows.antt =====
-- The rows of `groupSiblingRows`.
use nafir.Base.{
  ℕ, Bool, List, [], ◌∷◌, ◌++◌, All, All-append, Bool-cases, inl, inr, append_assoc, append-nil,
}
use nafir.Base.Int.{pos, ◌-ℤ◌, abs, ◌≤ℤ◌, leb_ℤ, leb_ℤ→le}
use mathlib.Core.List.{Perm, perm_middle}
use mathlib.Core.List.Perm
use nafir.Insert.Gap.{Sibling, insert, sort, place, place_all, group_sibling_rows, by_top_left}

module _ {ℓ} {Element : Type ℓ} where
  abbrev pub members : List (Sibling Element × List (Sibling Element)) → List (Sibling Element)
  members [] = []
  members ((first, others) ∷ rows) = (first ∷ others) ++ members rows

  abbrev pub IsLevel : ℕ → Sibling Element × List (Sibling Element) → Type 0
  IsLevel threshold (first, others) =
      All (λ entry. abs (entry.rect.top -ℤ first.rect.top) ≤ℤ pos threshold) others

  insert-perm :
      (order : Sibling Element → Sibling Element → Bool) (a : Sibling Element)
      (l : List (Sibling Element))
      → Perm (insert order a l) (a ∷ l)
  unfolding insert
  insert-perm order a [] = Perm.refl (a ∷ [])
  insert-perm order a (b ∷ bs) = elim (Bool-cases (order a b)) [
    | inl first ↦ rw first (Perm.refl (a ∷ b ∷ bs))
    | inr later ↦ rw later (Perm.trans (Perm.cons b (insert-perm order a bs)) (Perm.swap a b bs))
  ]

  pub sort-perm :
      (order : Sibling Element → Sibling Element → Bool) (l : List (Sibling Element))
      → Perm (sort order l) l
  unfolding sort
  sort-perm order [] = Perm.refl []
  sort-perm order (a ∷ l) =
      Perm.trans (insert-perm order a (sort order l)) (Perm.cons a (sort-perm order l))

  place-perm :
      (threshold : ℕ) (entry : Sibling Element)
      (rows : List (Sibling Element × List (Sibling Element)))
      → Perm (members (place threshold entry rows)) (entry ∷ members rows)
  unfolding place
  place-perm threshold entry [] = Perm.refl (entry ∷ [])
  place-perm threshold entry ((first, others) ∷ rows) =
      elim (Bool-cases (leb_ℤ (abs (entry.rect.top -ℤ first.rect.top)) (pos threshold))) [
        | inl level ↦ rw level (
            rw append_assoc (
              Perm.trans (Perm.cons first (perm_middle others (members rows)))
                (Perm.swap entry first (others ++ members rows))))
        | inr apart ↦ rw apart (
            Perm.trans
              (Perm.cons first (
                Perm.trans (Perm.append_left others (place-perm threshold entry rows))
                  (perm_middle others (members rows))))
              (Perm.swap entry first (others ++ members rows)))
      ]

  place_all-perm :
      (threshold : ℕ) (rows : List (Sibling Element × List (Sibling Element)))
      (entries : List (Sibling Element))
      → Perm (members (place_all threshold rows entries)) (entries ++ members rows)
  unfolding place_all
  place_all-perm threshold rows [] = Perm.refl (members rows)
  place_all-perm threshold rows (entry ∷ entries) =
      Perm.trans (place_all-perm threshold (place threshold entry rows) entries) (
        Perm.trans (Perm.append_left entries (place-perm threshold entry rows))
          (perm_middle entries (members rows)))

  place-IsLevel :
      (threshold : ℕ) (entry : Sibling Element)
      (rows : List (Sibling Element × List (Sibling Element)))
      → All (IsLevel threshold) rows
      → All (IsLevel threshold) (place threshold entry rows)
  unfolding place
  place-IsLevel threshold entry [] h = (tt, tt)
  place-IsLevel threshold entry ((first, others) ∷ rows) h =
      elim (Bool-cases (leb_ℤ (abs (entry.rect.top -ℤ first.rect.top)) (pos threshold))) [
        | inl level ↦ rw level (
          All-append (λ m. abs (m.rect.top -ℤ first.rect.top) ≤ℤ pos threshold) others (entry ∷ [])
              h.0 (leb_ℤ→le (abs (entry.rect.top -ℤ first.rect.top)) (pos threshold) level, tt),
          h.1,
        )
        | inr apart ↦ rw apart (h.0, place-IsLevel threshold entry rows h.1)
      ]

  place_all-IsLevel :
      (threshold : ℕ) (rows : List (Sibling Element × List (Sibling Element)))
      (entries : List (Sibling Element))
      → All (IsLevel threshold) rows
      → All (IsLevel threshold) (place_all threshold rows entries)
  unfolding place_all
  place_all-IsLevel threshold rows [] h = h
  place_all-IsLevel threshold rows (entry ∷ entries) h =
      place_all-IsLevel threshold (place threshold entry rows) entries
        (place-IsLevel threshold entry rows h)

  -- The rows hold the siblings, each as often as it is given, and the top of every entry of a row is
  -- at most the threshold away from the top of the row's first entry.
  pub group_sibling_rows_lem :
      (threshold : ℕ) (siblings : List (Sibling Element))
      → Perm (members (group_sibling_rows threshold siblings)) siblings
        × All (IsLevel threshold) (group_sibling_rows threshold siblings)
  unfolding group_sibling_rows
  group_sibling_rows_lem threshold siblings = (
    Perm.trans (place_all-perm threshold [] (sort by_top_left siblings))
        (rw append-nil (sort-perm by_top_left siblings)),
    place_all-IsLevel threshold [] (sort by_top_left siblings) tt,
  )
