-- ===== src/Value.antt =====
-- JavaScript values as they come out of `JSON.parse` or a page global: what property access,
-- truthiness, `typeof`, `String(v)` and `{...object, key: v}` give on them.
use nafir.Base.{
  ℕ, zero, suc, ◌+◌, ◌/◌, ◌%◌, ◌≡◌, Bool, true, false, Option, none, some, List, [], ◌∷◌, ◌++◌,
  arith, if◌then◌else◌, Text, codes, text_eq, text_eq_refl, text_eq_iff, Bool-cases, inl, inr, ltb,
  ◌≢◌,
}

-- `int n` is the integer n, `neg n` is -(n + 1), and `other t` is any other number, by its text.
mutual
  pub data Value : Type 0 where
    null : Value
    bool : Bool → Value
    int : ℕ → Value
    neg : ℕ → Value
    other : Text → Value
    str : Text → Value
    arr : Items → Value
    obj : Fields → Value

  pub data Items : Type 0 where
    nil : Items
    cons : Value → Items → Items

  pub data Fields : Type 0 where
    end : Fields
    field : Text → Value → Fields → Fields

unfoldable pub get : Text → Fields → Option Value
get k end = none
get k (field j v fs) = if text_eq j k then some v else get k fs

-- `{...object, k: v}`: an existing key keeps its place.
unfoldable pub put : Text → Value → Fields → Fields
put k v end = field k v end
put k v (field j w fs) = if text_eq j k then field j v fs else field j w (put k v fs)

-- `v.k`; `none` is `undefined`. Only an object has the keys that the program asks for.
unfoldable pub property : Text → Value → Option Value
unfolding get
property k (obj fs) = get k fs
property k _ = none

-- `!!v`; the numbers that stand as `other` are not 0.
abbrev pub truthy : Option Value → Bool
truthy none = false
truthy (some null) = false
truthy (some (bool b)) = b
truthy (some (int zero)) = false
truthy (some (str [])) = false
truthy (some _) = true

-- The elements of an array, as `Array.isArray(v) ? v : []`.
abbrev pub elements : Items → List Value
elements nil = []
elements (cons v vs) = v ∷ elements vs

abbrev pub items : List Value → Items
items [] = nil
items (v ∷ vs) = cons v (items vs)

abbrev pub as_array : Option Value → List Value
as_array (some (arr vs)) = elements vs
as_array _ = []

-- `typeof v === 'string'`, with the string.
abbrev pub as_string : Value → Option Text
as_string (str t) = some t
as_string _ = none

-- The decimal digits of a number, put in front of `acc`; n + 1 rounds of division are enough.
decimal_from : ℕ → ℕ → Text → Text
decimal_from zero n acc = acc
decimal_from (suc f) n acc =
    let rest = decimal_from f (n / 10) ((48 + n % 10) ∷ acc) in
    if ltb n 10 then (48 + n % 10) ∷ acc else rest

unfoldable pub decimal : ℕ → Text
unfolding decimal_from
decimal n = decimal_from (suc n) n []

-- `String(v)`; in an array `null` prints as nothing.
mutual
  unfolding decimal

  pub to_text : Value → Text
  to_text null = codes "null"
  to_text (bool true) = codes "true"
  to_text (bool false) = codes "false"
  to_text (int n) = decimal n
  to_text (neg n) = codes "-" ++ decimal (suc n)
  to_text (other t) = t
  to_text (str t) = t
  to_text (arr vs) = items_text vs
  to_text (obj fs) = codes "[object Object]"

  pub items_text : Items → Text
  items_text nil = []
  items_text (cons null nil) = []
  items_text (cons null vs) = codes "," ++ items_text vs
  items_text (cons v nil) = to_text v
  items_text (cons v vs) = to_text v ++ codes "," ++ items_text vs

-- `String(v || '')`
unfoldable pub text_or_empty : Option Value → Text
unfolding to_text
text_or_empty none = []
text_or_empty (some v) = if truthy (some v) then to_text v else []

pub get-put_self : (k : Text) (v : Value) (fs : Fields) → get k (put k v fs) ≡ some v
unfolding get put
get-put_self k v end = rw (text_eq_refl k)
get-put_self k v (field j w fs) = elim (Bool-cases (text_eq j k)) [
  | inl same ↦ rw (same, get) (rw same)
  | inr differ ↦ rw (differ, get) (rw differ (get-put_self k v fs))
]

pub get-put_ne : (k j : Text) (v : Value) (fs : Fields) → k ≢ j → get j (put k v fs) ≡ get j fs
unfolding get put
get-put_ne k j v end ne = ground (arith, text_eq_iff k j)
get-put_ne k j v (field i w fs) ne =
    ground (arith, text_eq_iff k j, text_eq_iff i k, text_eq_iff i j, get-put_ne k j v fs ne)
