-- ===== src/Reference/Parse.antt =====
-- The segment of an element is parsed to its tag, its id, the classes that it names, and its index.
use nafir.Base.{
  span, is_digit, ℕ, suc, ◌+◌, ◌≡◌, Bool, true, false, not, ◌&&◌, ◌||◌, ◌==◌, Option, none, some,
  List, [], ◌∷◌, ◌++◌, all, length, if◌then◌else◌, arith, refl, ap, sym, ◌∙◌, Text, codes, text_eq,
  is_empty, is_space, starts_with, drop, split, split-part, split-last, lacks, branch_true,
  branch_false, Bool-cases, inl, inr, append-nil,
}
use mathlib.Core.Path.{subst}
use nafir.Reference.{
  put_before, nth_digits, split_nth, in_id, split_id, normalize_document_ref_token, dotted,
}

-- A unit that may stand in an id or a class, and one that may stand in a tag.
abbrev pub in_name : ℕ → Bool
in_name c = not ((c == b'#') || (c == b'.') || (c == b'>') || (c == b'(') || is_space c)

abbrev pub in_tag_name : ℕ → Bool
in_tag_name c = in_name c && not (c == b':')

pub all-append :
    (p : ℕ → Bool) (s t : Text) → all p s ≡ true → all p t ≡ true → all p (s ++ t) ≡ true
all-append p [] t h k = k
all-append p (c ∷ s) t h k = ground (arith, all-append p s t, h, k)

pub normalized-name : (s : Text) → all in_name s ≡ true → normalize_document_ref_token s ≡ s
normalized-name [] h = refl
normalized-name (c ∷ s) h =
    branch_false (λ (r : Text). r ≡ c ∷ s) ((c == b'>') || is_space c) _ (ground (arith, h))
      (ap (λ (l : Text). c ∷ l) (normalized-name s (ground (arith, h))))

-- `span` over a text that is followed by nothing, or by a unit that is not in it.
abbrev pub stops : (ℕ → Bool) → Text → Bool
stops p [] = true
stops p (c ∷ s) = not (p c)

pub span-stops :
    (p : ℕ → Bool) (s rest : Text)
    → all p s ≡ true
    → stops p rest ≡ true
    → span p (s ++ rest) ≡ (s, rest)
span-stops p [] [] h k = refl
span-stops p [] (c ∷ rest) h k =
    branch_false (λ (r : Text × Text). r ≡ ([], c ∷ rest)) (p c) _ (ground (arith, k)) refl
span-stops p (c ∷ s) rest h k =
    branch_true (λ (r : Text × Text). r ≡ (c ∷ s, rest)) (p c) _ (ground (arith, h))
      (ap (λ (r : Text × Text). (c ∷ r.0, r.1)) (span-stops p s rest (ground (arith, h)) k))

-- The text of `:nth-of-type(…)`, and the place of the first parenthesis.
abbrev pub nth_text : Text → Text
nth_text digits = codes ":nth-of-type(" ++ (digits ++ codes ")")

abbrev paren_at : Text → ℕ
paren_at [] = 0
paren_at (c ∷ s) = if c == b'(' then 0 else suc (paren_at s)

paren_at-append : (s t : Text) → lacks b'(' s ≡ true → paren_at (s ++ t) ≡ length s + paren_at t
paren_at-append [] t h = omega arith
paren_at-append (c ∷ s) t h =
    branch_false (λ (n : ℕ). n ≡ suc (length s) + paren_at t) (c == b'(') 0 (ground (arith, h))
      (omega (arith, paren_at-append s t (ground (arith, h))))

starts_with-paren_at :
    (q s : Text)
    → lacks b'(' q ≡ true
    → starts_with s (q ++ b'(' ∷ []) ≡ true
    → paren_at s ≡ length q
starts_with-paren_at [] [] h k = cc
starts_with-paren_at [] (c ∷ s) h k = ground (arith, k)
starts_with-paren_at (x ∷ q) [] h k = cc
starts_with-paren_at (x ∷ q) (c ∷ s) h k =
    let next = starts_with-paren_at q s (ground (arith, h)) (ground (arith, k)) in
    branch_false (λ (n : ℕ). n ≡ suc (length q)) (c == b'(') 0 (ground (arith, h, k))
      (omega (arith, next))

-- A text before it, with no parenthesis, is not read as a part of it.
nth_digits-none :
    (c : ℕ) (s digits : Text)
    → lacks b'(' (c ∷ s) ≡ true
    → nth_digits (c ∷ (s ++ nth_text digits)) ≡ none
nth_digits-none c s digits h =
    let t = c ∷ (s ++ nth_text digits) in
    let far : paren_at t ≡ length (c ∷ s) + 12 = paren_at-append (c ∷ s) (nth_text digits) h in
    branch_false (λ (r : Option Text). r ≡ none)
      (starts_with t (codes ":nth-of-type(")
        && not (is_empty (span is_digit (drop 13 t)).0)
        && text_eq (span is_digit (drop 13 t)).1 (codes ")"))
      _
      (elim (Bool-cases (starts_with t (codes ":nth-of-type("))) [
        | inl e ↦
            (let near : paren_at t ≡ 12 = starts_with-paren_at (codes ":nth-of-type") t refl e in
              absurd (omega (arith, near, far)))
        | inr e ↦ ground (arith, e)
      ])
      refl

nth_digits-some :
    (digits : Text)
    → all is_digit digits ≡ true
    → is_empty digits ≡ false
    → nth_digits (nth_text digits) ≡ some digits
nth_digits-some digits h k =
    let read : span is_digit (digits ++ codes ")") ≡ (digits, codes ")") =
      span-stops is_digit digits (codes ")") h refl in
    subst
      (λ (r : Text × Text).
        (if not (is_empty r.0) && text_eq r.1 (codes ")") then some r.0 else none) ≡ some digits)
      (sym read)
      (branch_true (λ (r : Option Text). r ≡ some digits) (not (is_empty digits) && true) none
        (ground (arith, k)) refl)

pub split_nth-append :
    (base digits : Text)
    → lacks b'(' base ≡ true
    → all is_digit digits ≡ true
    → is_empty digits ≡ false
    → split_nth (base ++ nth_text digits) ≡ (base, some digits)
split_nth-append [] digits h k m =
    let after = codes "nth-of-type(" ++ (digits ++ codes ")") in
    ap (put_before b':' (split_nth after)) (nth_digits-some digits k m)
split_nth-append (c ∷ s) digits h k m =
    ap (put_before c (split_nth (s ++ nth_text digits))) (nth_digits-none c s digits h)
    ∙ ap (λ (r : Text × Option Text). (c ∷ r.0, r.1))
        (split_nth-append s digits (ground (arith, h)) k m)

-- A text with no number sign stays before the one that is found.
pub split_id-append :
    (s t : Text) → lacks b'#' s ≡ true → split_id (s ++ t) ≡ (s ++ (split_id t).0, (split_id t).1)
split_id-append [] t h = refl
split_id-append (c ∷ s) t h =
    let found = span in_id (s ++ t) in
    branch_false (λ (r : Text × Text). r ≡ (c ∷ (s ++ (split_id t).0), (split_id t).1))
      ((c == b'#') && not (is_empty found.0)) (found.1, found.0) (ground (arith, h))
      (ap (λ (r : Text × Text). (c ∷ r.0, r.1)) (split_id-append s t (ground (arith, h))))

split_id-found :
    (id rest : Text)
    → all in_id id ≡ true
    → is_empty id ≡ false
    → stops in_id rest ≡ true
    → split_id (b'#' ∷ (id ++ rest)) ≡ (rest, id)
split_id-found id rest h k m =
    let later = split_id (id ++ rest) in
    let Found : Text × Text → Type 0 = λ r. r ≡ (rest, id) in
    subst
      (λ (r : Text × Text).
        Found (if not (is_empty r.0) then (r.1, r.0) else (b'#' ∷ later.0, later.1)))
      (sym (span-stops in_id id rest h m))
      (branch_true Found (not (is_empty id)) (b'#' ∷ later.0, later.1) (ground (arith, k)) refl)

pub drop-append : (s t : Text) → drop (length s) (s ++ t) ≡ t
drop-append [] t = refl
drop-append (c ∷ s) t = drop-append s t

-- The classes of a reference, as they are.
abbrev pub raw_dotted : List Text → Text
raw_dotted [] = []
raw_dotted (c ∷ cs) = b'.' ∷ (c ++ raw_dotted cs)

abbrev pub raw_id : Text → Text
raw_id [] = []
raw_id (c ∷ s) = b'#' ∷ c ∷ s

pub dotted-raw : (cs : List Text) → all (all in_name) cs ≡ true → dotted cs ≡ raw_dotted cs
dotted-raw [] h = refl
dotted-raw (c ∷ cs) h =
    ap (λ (l : Text). b'.' ∷ (l ++ dotted cs)) (normalized-name c (ground (arith, h)))
    ∙ ap (λ (l : Text). b'.' ∷ (c ++ l)) (dotted-raw cs (ground (arith, h)))

pub raw_dotted-stops :
    (p : ℕ → Bool) (cs : List Text) → p b'.' ≡ false → stops p (raw_dotted cs) ≡ true
raw_dotted-stops p [] h = refl
raw_dotted-stops p (c ∷ cs) h = ap not h

pub raw_dotted-all :
    (p : ℕ → Bool) (cs : List Text)
    → p b'.' ≡ true
    → all (all p) cs ≡ true
    → all p (raw_dotted cs) ≡ true
raw_dotted-all p [] d h = refl
raw_dotted-all p (c ∷ cs) d h = ground (
  arith,
  d,
  all-append p c (raw_dotted cs) (ground (arith, h)) (raw_dotted-all p cs d (ground (arith, h))),
)

pub split-raw_dotted :
    (t : Text) (cs : List Text)
    → lacks b'.' t ≡ true
    → all (lacks b'.') cs ≡ true
    → split b'.' (t ++ raw_dotted cs) ≡ t ∷ cs
split-raw_dotted t [] h k = ap (split b'.') (append-nil t) ∙ split-last b'.' t h
split-raw_dotted t (c ∷ cs) h k =
    split-part b'.' t (c ++ raw_dotted cs) h
    ∙ ap (λ (l : List Text). t ∷ l) (split-raw_dotted c cs (ground (arith, k)) (ground (arith, k)))

split_id-none : (s : Text) → lacks b'#' s ≡ true → split_id s ≡ (s, [])
split_id-none [] h = refl
split_id-none (c ∷ s) h =
    branch_false (λ (r : Text × Text). r ≡ (c ∷ s, []))
      ((c == b'#') && not (is_empty (span in_id s).0)) _ (ground (arith, h))
      (ap (λ (r : Text × Text). (c ∷ r.0, r.1)) (split_id-none s (ground (arith, h))))

pub split_id-raw :
    (id classes : Text)
    → all in_id id ≡ true
    → lacks b'#' classes ≡ true
    → stops in_id classes ≡ true
    → split_id (raw_id id ++ classes) ≡ (classes, id)
split_id-raw [] classes h k m = split_id-none classes k
split_id-raw (c ∷ id) classes h k m = split_id-found (c ∷ id) classes h refl m
