-- ===== src/Markup/Render/Kept/Grows.antt =====
-- What each operation of the loop adds to the blocks and buffers.
use nafir.Base.{
  ℕ, ◌+◌, ◌≡◌, Bool, true, false, Option, none, some, List, [], ◌∷◌, map, Text, arith, refl, ap,
  sym, ◌∙◌, branch, branch_by,
}
use mathlib.Core.Path.{subst}
use nafir.Markup.{ListType, ul, ol}
use nafir.Markup.Lines.{Entry, entry_of}
use nafir.Markup.Render.{
  Block, paragraph, listing, heading, Rendering, some_of, push, flush_para, flush_list, flush_all,
  type_or_ul, same_type, before_entry, add_entry, item_or_text, heading_or_other,
}
use nafir.Markup.Render.Kept.Contents.{
  Content, of_paragraph, of_code, of_entry, contents, all_contents, said_by_entry, said_by_heading,
  count, count-out, count-map,
}

-- Entries wait only under a type.
abbrev pub IsTyped : Option ListType → List Entry → Type 0
IsTyped none es = es ≡ []
IsTyped (some type) es = Unit {0}

abbrev pub code_count : (Content → Bool) → Bool → List Text → ℕ
code_count q true ts = count q (map of_code ts)
code_count q false ts = 0

module _ (q : Content → Bool) where
  -- What is written, and what waits in the buffers.
  unfoldable pub total : Rendering → ℕ
  total t =
      count q (all_contents t.out)
      + count q (map of_paragraph t.para_buf)
      + count q (map (of_entry (type_or_ul t.list_type)) t.list_buf)
      + code_count q t.in_code t.code_buf

  -- From `t` to `u` the contents grow by `n`.
  pub record Adds (t : Rendering) (n : ℕ) (u : Rendering) : Type 0 where
    pub grows : total u ≡ total t + n
    pub same_mode : u.in_code ≡ t.in_code
    pub typed : IsTyped u.list_type u.list_buf

  unchanged-Adds : (t : Rendering) → IsTyped t.list_type t.list_buf → Adds t 0 t
  unchanged-Adds t h = record { grows = omega arith; same_mode = refl; typed = h }

  flush_para-Adds : (t : Rendering) → IsTyped t.list_type t.list_buf → Adds t 0 (flush_para t)
  unfolding flush_para total
  flush_para-Adds t h =
      branch (Adds t 0) (some_of t.para_buf)
        (record {
          grows = omega (arith, count-out q t.out (paragraph t.para_buf));
          same_mode = refl;
          typed = h;
        })
        (unchanged-Adds t h)

  flush_list-Adds : (t : Rendering) → IsTyped t.list_type t.list_buf → Adds t 0 (flush_list t)
  unfolding flush_list total
  flush_list-Adds t h =
      branch (Adds t 0) (some_of t.list_buf)
        (record {
          grows = omega (arith, count-out q t.out (listing (type_or_ul t.list_type) t.list_buf));
          same_mode = refl;
          typed = refl;
        })
        (unchanged-Adds t h)

  flushed-Adds : (t u v : Rendering) (n : ℕ) → Adds t 0 u → Adds u n v → Adds t n v
  flushed-Adds t u v n h k = record {
    grows = omega (arith, h.grows, k.grows);
    same_mode = k.same_mode ∙ h.same_mode;
    typed = k.typed;
  }

  pub flush_all-Adds : (t : Rendering) → IsTyped t.list_type t.list_buf → Adds t 0 (flush_all t)
  flush_all-Adds t h =
      flushed-Adds t (flush_para t) (flush_all t) 0 (flush_para-Adds t h)
        (flush_list-Adds (flush_para t) (flush_para-Adds t h).typed)

  push-Adds :
      (b : Block) (t : Rendering)
      → IsTyped t.list_type t.list_buf
      → Adds t (count q (contents b)) (push b t)
  unfolding total
  push-Adds b t h = record {
    grows = omega (arith, count-out q t.out b);
    same_mode = refl;
    typed = h;
  }

  pub flushed_push-Adds :
      (b : Block) (t : Rendering)
      → IsTyped t.list_type t.list_buf
      → Adds t (count q (contents b)) (push b (flush_all t))
  flushed_push-Adds b t h =
      flushed-Adds t (flush_all t) (push b (flush_all t)) (count q (contents b))
        (flush_all-Adds t h) (push-Adds b (flush_all t) (flush_all-Adds t h).typed)

  add_entry-Adds :
      (e : Entry) (u : Rendering)
      → count q (map (of_entry e.type) u.list_buf)
        ≡ count q (map (of_entry (type_or_ul u.list_type)) u.list_buf)
      → Adds u (count q (of_entry e.type e ∷ [])) (add_entry e u)
  unfolding total
  add_entry-Adds e u h = record {
    grows = omega (arith, h, count-map q (of_entry e.type) u.list_buf e);
    same_mode = refl;
    typed = tt;
  }

  empty-count :
      (a b : ListType) (es : List Entry)
      → es ≡ []
      → count q (map (of_entry a) es) ≡ count q (map (of_entry b) es)
  empty-count a b [] h = refl
  empty-count a b (e ∷ es) h = cc

  pub flush_list-empty : (u : Rendering) → (flush_list u).list_buf ≡ []
  unfolding flush_list
  flush_list-empty u =
      branch_by (λ (r : Rendering). r.list_buf ≡ []) (some_of u.list_buf) (λ some. refl)
        (none-empty u.list_buf)
    where
      none-empty : (es : List Entry) → some_of es ≡ false → es ≡ []
      none-empty [] h = refl
      none-empty (e ∷ es) h = cc

  same_type-eq : (a b : ListType) → same_type a b ≡ true → a ≡ b
  same_type-eq ul ul h = refl
  same_type-eq ol ol h = refl
  same_type-eq ul ol h = cc
  same_type-eq ol ul h = cc

  before_entry-Adds :
      (e : Entry) (u : Rendering) (r : Option ListType)
      → r ≡ u.list_type
      → IsTyped u.list_type u.list_buf
      → Adds u (count q (of_entry e.type e ∷ [])) (add_entry e (before_entry e.type r u))
  before_entry-Adds e u none h typed = add_entry-Adds e u (
      empty-count e.type (type_or_ul u.list_type) u.list_buf
        (subst (λ (o : Option ListType). IsTyped o u.list_buf) (sym h) typed))
  before_entry-Adds e u (some own) h typed =
      branch_by (λ (v : Rendering). Adds u (count q (of_entry e.type e ∷ [])) (add_entry e v))
        (same_type own e.type)
        (λ same. add_entry-Adds e u (
          ap (λ (type : ListType). count q (map (of_entry type) u.list_buf))
            (sym (same_type-eq own e.type same) ∙ ap type_or_ul h)))
        (λ differ.
          flushed-Adds u (flush_list u) (add_entry e (flush_list u))
            (count q (of_entry e.type e ∷ [])) (flush_list-Adds u typed)
            (add_entry-Adds e (flush_list u) (
              empty-count e.type (type_or_ul (flush_list u).list_type) (flush_list u).list_buf
                (flush_list-empty u))))

  item_or_text-Adds :
      (line : Text) (o : Option Entry) (t : Rendering)
      → IsTyped t.list_type t.list_buf
      → Adds t (count q (said_by_entry line o)) (item_or_text line o t)
  unfolding total
  item_or_text-Adds line none t h = record {
    grows = omega (arith, count-map q of_paragraph t.para_buf line);
    same_mode = refl;
    typed = h;
  }
  item_or_text-Adds line (some e) t h =
      let u = flush_para t in
      let first = flush_para-Adds t h in
      flushed-Adds t u (item_or_text line (some e) t) (count q (of_entry e.type e ∷ [])) first
        (before_entry-Adds e u u.list_type refl first.typed)

  pub heading_or_other-Adds :
      (line : Text) (o : Option (ℕ × Text)) (t : Rendering)
      → IsTyped t.list_type t.list_buf
      → Adds t (count q (said_by_heading line o)) (heading_or_other line o t)
  heading_or_other-Adds line none t h = item_or_text-Adds line (entry_of line) t h
  heading_or_other-Adds line (some (level, text)) t h = flushed_push-Adds (heading level text) t h
