-- ===== src/Reference/Tests.antt =====
-- References to elements of a small page, there and back.
use nafir.Base.{
  is_digit, ℕ, zero, suc, ◌+◌, ◌-◌, ◌*◌, ◌≡◌, arith, List, [], ◌∷◌, some, none, refl, ap, codes,
  Text, split, trim, all, length, true, false, is_empty,
}
use nafir.Reference.RoundTrip.{query_manual_edit_ref-document_ref_for_element}
use nafir.Reference.Segments.{IsFaithful}
use nafir.Reference.{
  Host, Node, Nodes, Body, node, nil, cons, document_ref_for_element, query_manual_edit_ref,
  parse_manual_edit_ref_segment,
}

abbrev number_from : ℕ → Text → ℕ
number_from n [] = n
number_from n (c ∷ s) = number_from (n * 10 + (c - b'0')) s

-- Numbers of one digit are all that these pages need.
abbrev host : Host
host = record { show = λ n. (b'0' + n) ∷ []; number = number_from 0; lower = λ t. t }

abbrev leaf : Text → Text → List Text → Node
leaf tag id classes = node (record { tag = tag; id = id; class_list = classes }) nil

abbrev section_of : Nodes → Body
section_of kids = record {
  own = record { tag = codes "body"; id = []; class_list = [] };
  kids = cons (leaf (codes "p") [] []) (
      cons
        (node
          (record {
            tag = codes "div";
            id = codes "main";
            class_list = codes "impeccable-x" ∷ codes "md:flex" ∷ [];
          })
          kids)
        nil);
}

-- Two paragraphs with the same class.
abbrev plain : Body
plain = section_of (
    cons (leaf (codes "p") [] (codes "lead" ∷ []))
      (cons (leaf (codes "p") [] (codes "lead" ∷ [])) nil))

reference_of_second :
    document_ref_for_element host plain.kids (1 ∷ 1 ∷ [])
    ≡ codes "body>div#main.md:flex:nth-of-type(1)>p.lead:nth-of-type(2)"
reference_of_second = refl

found_again :
    query_manual_edit_ref host plain (document_ref_for_element host plain.kids (1 ∷ 1 ∷ []))
    ≡ some (1 ∷ 1 ∷ [])
unfolding parse_manual_edit_ref_segment split trim
found_again = refl

-- A class with a dot in its name, and one with a number sign.
abbrev spaced : Body
spaced = section_of (
    cons (leaf (codes "p") [] (codes "py-1.5" ∷ []))
      (cons (leaf (codes "a") [] (codes "bg-[#fff]" ∷ [])) nil))

dot_not_found :
    query_manual_edit_ref host spaced (document_ref_for_element host spaced.kids (1 ∷ 0 ∷ []))
    ≡ none
unfolding parse_manual_edit_ref_segment split trim
dot_not_found = refl

number_sign_not_found :
    query_manual_edit_ref host spaced (document_ref_for_element host spaced.kids (1 ∷ 1 ∷ []))
    ≡ none
unfolding parse_manual_edit_ref_segment split trim
number_sign_not_found = refl

-- Numbers of any size, as a one for each unit and one more.
abbrev ones : ℕ → Text
ones zero = b'1' ∷ []
ones (suc n) = b'1' ∷ ones n

abbrev unary : Host
unary = record { show = ones; number = λ t. length t - 1; lower = λ t. t }

ones-digits : (n : ℕ) → all is_digit (ones n) ≡ true
ones-digits zero = refl
ones-digits (suc n) = ones-digits n

ones-some : (n : ℕ) → is_empty (ones n) ≡ false
ones-some zero = refl
ones-some (suc n) = refl

ones-length : (n : ℕ) → length (ones n) ≡ suc n
ones-length zero = refl
ones-length (suc n) = ap suc (ones-length n)

ones-read : (n : ℕ) → length (ones n) - 1 ≡ n
ones-read n = omega (arith, ones-length n)

unary-IsFaithful : IsFaithful unary
unary-IsFaithful = record { digits = ones-digits; some_digits = ones-some; read_back = ones-read }

query_manual_edit_ref-document_ref_for_element_example :
    query_manual_edit_ref unary plain (document_ref_for_element unary plain.kids (1 ∷ 1 ∷ []))
    ≡ some (1 ∷ 1 ∷ [])
query_manual_edit_ref-document_ref_for_element_example =
    query_manual_edit_ref-document_ref_for_element unary plain (1 ∷ 1 ∷ []) unary-IsFaithful refl
      refl
      (
        _,
        refl,
        record { tag = refl; some_tag = refl; lowered = refl; id = refl; classes = refl },
        (
          _,
          refl,
          record { tag = refl; some_tag = refl; lowered = refl; id = refl; classes = refl },
          tt,
        ),
      )
