-- ===== src/Session/Handled.antt =====
-- The list of handled ids: how it is read back, and what filtering and cutting leave of it.
use nafir.Base.{
  ℕ, ◌+◌, ◌-◌, ◌≤◌, ◌≡◌, ◌≢◌, Bool, true, false, not, Option, none, some, List, [], ◌∷◌, ◌++◌, map,
  arith, Text, refl, ap, Bool-cases, inl, inr, zero, suc, ◌||◌, ◌∙◌, All, length, drop, filter,
  contains, is_empty, text_eq, text_eq_refl, text_eq_iff, length-append,
}
use nafir.Value.{Value, str, arr, items, elements}
use nafir.Session.Browser.{Platform, IsDocumented}
use nafir.Session.{
  nonempty_strings, last_8, handled_key, Tab, safe_write, safe_remove, remove_handled_ids, raw_ids,
  parsed_ids, read_handled_ids, write_handled_ids, safe_read,
}

-- The storage takes the write of `v` under `k`.
abbrev pub Accepts : (p : Platform) → p.Store → Text → Text → Type 0
Accepts p s k v = (s' : p.Store) × (p.set_item s k v ≡ some s')

abbrev pub ids_text : (p : Platform) → List Text → Text
ids_text p ids = p.stringify (arr (items (map str ids)))

abbrev pub IsNonempty : Text → Type 0
IsNonempty t = is_empty t ≡ false

nonempty_strings-map :
    (ids : List Text) → All IsNonempty ids → nonempty_strings (elements (items (map str ids))) ≡ ids
nonempty_strings-map [] h = refl
nonempty_strings-map ([] ∷ ids) h = cc
nonempty_strings-map ((c ∷ t) ∷ ids) h = ap ((c ∷ t) ∷◌) (nonempty_strings-map ids h.1)

-- What `filter` and `drop` leave of a property of every element, and of a search.
module _ {ℓ} {A : Type ℓ} (P : A → Type 0) where
  pub All-filter : (q : A → Bool) (xs : List A) → All P xs → All P (filter q xs)
  All-filter q [] h = h
  All-filter q (x ∷ xs) h = elim (Bool-cases (q x)) [
    | inl e ↦ rw e (h.0, All-filter q xs h.1)
    | inr e ↦ rw e (All-filter q xs h.1)
  ]

  pub All-drop : (n : ℕ) (xs : List A) → All P xs → All P (drop n xs)
  All-drop zero xs h = h
  All-drop (suc n) [] h = h
  All-drop (suc n) (x ∷ xs) h = All-drop n xs h.1

pub drop-concat :
    {A : Type 0} (xs : List A) (x : A) (n : ℕ)
    → n ≤ length xs
    → drop n (xs ++ x ∷ []) ≡ drop n xs ++ x ∷ []
drop-concat xs x zero h = refl
drop-concat [] x (suc n) h = absurd (omega arith)
drop-concat (y ∷ xs) x (suc n) h = drop-concat xs x n (omega arith)

pub contains-concat :
    (xs : List Text) (id j : Text) → contains (xs ++ id ∷ []) j ≡ (contains xs j || text_eq j id)
contains-concat [] id j = ground arith
contains-concat (x ∷ xs) id j = ground (arith, contains-concat xs id j)

abbrev pub without : Text → List Text → List Text
without id = filter (λ existing. not (text_eq existing id))

pub contains-without_self : (id : Text) (xs : List Text) → contains (without id xs) id ≡ false
contains-without_self id [] = refl
contains-without_self id (x ∷ xs) =
    ground (arith, text_eq_iff x id, text_eq_iff id x, contains-without_self id xs)

pub contains-without_ne :
    (id j : Text) (xs : List Text) → j ≢ id → contains (without id xs) j ≡ contains xs j
contains-without_ne id j [] ne = refl
contains-without_ne id j (x ∷ xs) ne =
    ground (arith, text_eq_iff x id, text_eq_iff j x, contains-without_ne id j xs ne)

pub last_8-concat :
    (xs : List Text) (id : Text) → last_8 (xs ++ id ∷ []) ≡ drop (length xs + 1 - 8) xs ++ id ∷ []
last_8-concat xs id =
    rw (length-append xs (id ∷ [])) (drop-concat xs id (length xs + 1 - 8) (omega arith))

pub contains-last_8_self :
    (xs : List Text) (id : Text) → contains (last_8 (xs ++ id ∷ [])) id ≡ true
contains-last_8_self xs id =
    rw (last_8-concat xs id)
      (ground (arith, contains-concat (drop (length xs + 1 - 8) xs) id id, text_eq_refl id))

module _ (p : Platform) (doc : IsDocumented p) where
  pub safe_read-safe_write_self :
      (s : p.Store) (k v : Text) → Accepts p s k v → safe_read p (safe_write p s k v) k ≡ some v
  unfolding safe_read safe_write
  safe_read-safe_write_self s k v (s', e) =
      rw (e, safe_write) (rw (doc.get-set_self s k v e, safe_read))

module _ (p : Platform) (doc : IsDocumented p) where
  raw_ids-parsed :
      (raw : Text) {v : Option Value}
      → raw ≢ []
      → p.parse raw ≡ v
      → raw_ids p (some raw) ≡ parsed_ids p raw v
  unfolding raw_ids
  raw_ids-parsed [] ne e = absurd (ne refl)
  raw_ids-parsed (c ∷ raw) ne e = rw e

  raw_ids-ids_text :
      (ids : List Text) → All IsNonempty ids → raw_ids p (some (ids_text p ids)) ≡ ids
  raw_ids-ids_text ids h =
      raw_ids-parsed (ids_text p ids) (doc.stringify-ne-nil _) (doc.parse-stringify ids)
      ∙ unfold parsed_ids in nonempty_strings-map ids h

  nonempty_strings-All : (vs : List Value) → All IsNonempty (nonempty_strings vs)
  nonempty_strings-All [] = tt
  nonempty_strings-All (str (c ∷ t) ∷ vs) = (refl, nonempty_strings-All vs)
  nonempty_strings-All (_ ∷ vs) = nonempty_strings-All vs

  parsed_ids-All :
      (raw : Text) (v : Option Value) → IsNonempty raw → All IsNonempty (parsed_ids p raw v)
  unfolding parsed_ids
  parsed_ids-All raw (some (arr vs)) h = nonempty_strings-All (elements vs)
  parsed_ids-All raw (some (str (c ∷ t))) h = (refl, tt)
  parsed_ids-All raw _ h = (h, tt)

  pub raw_ids-All : (raw : Option Text) → All IsNonempty (raw_ids p raw)
  unfolding raw_ids
  raw_ids-All none = tt
  raw_ids-All (some []) = tt
  raw_ids-All (some (c ∷ raw)) = parsed_ids-All (c ∷ raw) (p.parse (c ∷ raw)) refl

  -- What is written under the handled key is what is read there.
  pub read-write_handled_ids :
      (t : Tab p) (ids : List Text)
      → All IsNonempty ids
      → Accepts p t.store (handled_key t.prefix) (ids_text p ids)
      → read_handled_ids p (write_handled_ids p t ids) ≡ ids
  unfolding read_handled_ids write_handled_ids
  read-write_handled_ids t ids h a =
      ap (raw_ids p)
        (safe_read-safe_write_self p doc t.store (handled_key t.prefix) (ids_text p ids) a)
      ∙ raw_ids-ids_text ids h

module _ (p : Platform) (doc : IsDocumented p) where
  pub safe_read-safe_remove_self :
      (s : p.Store) (k : Text) {s' : p.Store}
      → p.remove_item s k ≡ some s'
      → safe_read p (safe_remove p s k) k ≡ none
  unfolding safe_read safe_remove
  safe_read-safe_remove_self s k e = rw (e, safe_remove) (rw (doc.get-remove_self s k e, safe_read))

  pub read-remove_handled_ids :
      (t : Tab p) {s' : p.Store}
      → p.remove_item t.store (handled_key t.prefix) ≡ some s'
      → read_handled_ids p (remove_handled_ids p t) ≡ []
  unfolding read_handled_ids remove_handled_ids raw_ids
  read-remove_handled_ids t e =
      ap (raw_ids p) (safe_read-safe_remove_self t.store (handled_key t.prefix) e)
