-- ===== src/Markup/Escape.antt =====
-- What an escaped text stands for, and that no mark-up is in it.
use nafir.Base.{
  ℕ, zero, suc, ◌≡◌, Bool, true, false, not, ◌||◌, ◌==◌, ==_iff, [], ◌∷◌, ◌++◌, all, if◌then◌else◌,
  arith, refl, Text, codes, starts_with, Bool-cases, inl, inr, branch_true, branch_false, ap, sym,
  ◌∙◌, append_assoc,
}
use mathlib.Core.Path.{subst}
use nafir.Markup.{replace_unit, escape_html}

-- What a browser reads: an entity of those five is its unit, and `skip` units of it are passed over.
abbrev pub read_from : ℕ → Text → Text
read_from skip [] = []
read_from (suc skip) (c ∷ s) = read_from skip s
read_from zero (c ∷ s) =
    let plain = read_from 0 s in
    let past_3 = read_from 3 s in
    let past_4 = read_from 4 s in
    let past_5 = read_from 5 s in
    if not (c == b'&')
    then c ∷ plain
    else if starts_with s (codes "amp;")
    then b'&' ∷ past_4
    else if starts_with s (codes "lt;")
    then b'<' ∷ past_3
    else if starts_with s (codes "gt;")
    then b'>' ∷ past_3
    else if starts_with s (codes "quot;")
    then b'"' ∷ past_5
    else if starts_with s (codes "#39;")
    then b'\'' ∷ past_4
    else c ∷ plain

-- A unit that can neither begin a tag nor end an attribute.
abbrev pub is_inert : ℕ → Bool
is_inert c = not ((c == b'<') || (c == b'>') || (c == b'"') || (c == b'\''))

replace-append :
    (c : ℕ) (by s t : Text)
    → replace_unit c by (s ++ t) ≡ replace_unit c by s ++ replace_unit c by t
replace-append c by [] t = refl
replace-append c by (x ∷ s) t =
    ap (λ l. (if x == c then by else x ∷ []) ++ l) (replace-append c by s t)
    ∙ sym (append_assoc (if x == c then by else x ∷ []) (replace_unit c by s) (replace_unit c by t))

after_replace :
    (c : ℕ) (by : Text) (f : Text → Text)
    → ((s t : Text) → f (s ++ t) ≡ f s ++ f t)
    → (s t : Text)
    → replace_unit c by (f (s ++ t)) ≡ replace_unit c by (f s) ++ replace_unit c by (f t)
after_replace c by f h s t = ap (replace_unit c by) (h s t) ∙ replace-append c by (f s) (f t)

escape-append : (s t : Text) → escape_html (s ++ t) ≡ escape_html s ++ escape_html t
unfolding escape_html
escape-append =
    let no_amp : Text → Text = replace_unit b'&' (codes "&amp;") in
    let no_lt : Text → Text = λ s. replace_unit b'<' (codes "&lt;") (no_amp s) in
    let no_gt : Text → Text = λ s. replace_unit b'>' (codes "&gt;") (no_lt s) in
    let no_quot : Text → Text = λ s. replace_unit b'"' (codes "&quot;") (no_gt s) in
    after_replace b'\'' (codes "&#39;") no_quot (
      after_replace b'"' (codes "&quot;") no_gt (
        after_replace b'>' (codes "&gt;") no_lt
          (after_replace b'<' (codes "&lt;") no_amp (replace-append b'&' (codes "&amp;")))))

is_special : ℕ → Bool
is_special c = (c == b'&') || (c == b'<') || (c == b'>') || (c == b'"') || (c == b'\'')

-- The five units that are escaped, and any other.
by_unit :
    (P : ℕ → Type 0)
    → P b'&'
    → P b'<'
    → P b'>'
    → P b'"'
    → P b'\''
    → ((c : ℕ) → is_special c ≡ false → P c)
    → (c : ℕ) → P c
unfolding is_special
by_unit P amp lt gt quot apos other c =
    let at : (k : ℕ) → P k → (c == k) ≡ true → P c = λ k h e. subst P (sym ((==_iff c k).0 e)) h in
    elim (Bool-cases (c == b'&')) [
      | inl e ↦ at b'&' amp e
      | inr n0 ↦ elim (Bool-cases (c == b'<')) [
        | inl e ↦ at b'<' lt e
        | inr n1 ↦ elim (Bool-cases (c == b'>')) [
          | inl e ↦ at b'>' gt e
          | inr n2 ↦ elim (Bool-cases (c == b'"')) [
            | inl e ↦ at b'"' quot e
            | inr n3 ↦ elim (Bool-cases (c == b'\'')) [
              | inl e ↦ at b'\'' apos e
              | inr n4 ↦ other c (ground (arith, n0, n1, n2, n3, n4))
            ]
          ]
        ]
      ]
    ]

kept : (k : ℕ) (by : Text) (c : ℕ) → (c == k) ≡ false → replace_unit k by (c ∷ []) ≡ c ∷ []
kept k by c n = branch_false (λ (l : Text). l ++ [] ≡ c ∷ []) (c == k) by n refl

escape-plain : (c : ℕ) → is_special c ≡ false → escape_html (c ∷ []) ≡ c ∷ []
unfolding escape_html is_special
escape-plain c h =
    let amp = codes "&amp;" in
    let lt = codes "&lt;" in
    let gt = codes "&gt;" in
    let quot = codes "&quot;" in
    let apos = codes "&#39;" in
    ap
      (λ u.
        replace_unit b'\'' apos
          (replace_unit b'"' quot (replace_unit b'>' gt (replace_unit b'<' lt u))))
      (kept b'&' amp c (ground (arith, h)))
    ∙ ap (λ u. replace_unit b'\'' apos (replace_unit b'"' quot (replace_unit b'>' gt u)))
        (kept b'<' lt c (ground (arith, h)))
    ∙ ap (λ u. replace_unit b'\'' apos (replace_unit b'"' quot u))
        (kept b'>' gt c (ground (arith, h)))
    ∙ ap (replace_unit b'\'' apos) (kept b'"' quot c (ground (arith, h)))
    ∙ kept b'\'' apos c (ground (arith, h))

-- One escaped unit, before any text.
abbrev Reads : Text → ℕ → Type 0
Reads rest c =
    (read_from 0 (escape_html (c ∷ []) ++ rest) ≡ c ∷ read_from 0 rest)
    × (all is_inert (escape_html (c ∷ [])) ≡ true)

plain-Reads : (rest : Text) (c : ℕ) → is_special c ≡ false → Reads rest c
unfolding is_special
plain-Reads rest c h =
    subst (λ u. (read_from 0 (u ++ rest) ≡ c ∷ read_from 0 rest) × (all is_inert u ≡ true))
      (sym (escape-plain c h))
      (
        branch_true (λ (l : Text). l ≡ c ∷ read_from 0 rest) (not (c == b'&')) _ (ground (arith, h))
            refl,
        ground (arith, h),
      )

unit-Reads : (rest : Text) (c : ℕ) → Reads rest c
unfolding escape_html
unit-Reads rest =
    by_unit (Reads rest) (refl, refl) (refl, refl) (refl, refl) (refl, refl) (refl, refl)
      (plain-Reads rest)

all-append : (p : ℕ → Bool) (s t : Text) → all p s ≡ true → all p t ≡ true → all p (s ++ t) ≡ true
all-append p [] t h k = k
all-append p (x ∷ s) t h k = ground (arith, all-append p s t, h, k)

-- A browser reads an escaped text as the text itself, and no unit of it can begin a tag or end an
-- attribute.
pub read-escape_html :
    (s : Text) → (read_from 0 (escape_html s) ≡ s) × (all is_inert (escape_html s) ≡ true)
unfolding escape_html
read-escape_html [] = (refl, refl)
read-escape_html (c ∷ s) =
    let (same, inert) = read-escape_html s in
    let (unit, safe) = unit-Reads (escape_html s) c in
    let split_ = escape-append (c ∷ []) s in
    (
      ap (read_from 0) split_ ∙ unit ∙ ap (λ l. c ∷ l) same,
      ap (all is_inert) split_
          ∙ all-append is_inert (escape_html (c ∷ [])) (escape_html s) safe inert,
    )
