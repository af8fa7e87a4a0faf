-- ===== src/Markup/Render/Kept.antt =====
-- Each line is written once, by what it is.
pub mod Contents
mod Grows
use nafir.Base.{
  ℕ, zero, suc, ◌+◌, ◌≡◌, Bool, true, false, not, ◌&&◌, Option, none, some, List, [], ◌∷◌, ◌++◌,
  map, if◌then◌else◌, Text, arith, refl, ap, sym, ◌∙◌, Bool-cases, inl, inr, branch, branch_by,
  branch_both, branch_true, branch_false,
}
use mathlib.Core.Path.{subst}
use nafir.Markup.{ListType, ul, ol}
use nafir.Markup.Lines.{is_fence, is_blank_line, is_rule, heading_of, Entry, entry_of}
use nafir.Markup.Render.{
  Block, paragraph, listing, heading, rule, code_block, Rendering, start, some_of, push, flush_para,
  flush_list, flush_all, type_or_ul, same_type, before_entry, add_entry, item_or_text,
  heading_or_other, on_fence, on_line, on_lines, finish, blocks,
}
use nafir.Markup.Render.Kept.Contents.{
  Content, of_paragraph, of_list, of_heading, of_rule, of_code, of_entry, contents, all_contents,
  said_by_entry, said_by_heading, said, kept, count, count-append, count-out, count-map,
}
use nafir.Markup.Render.Kept.Grows.{
  IsTyped, code_count, total, Adds, flush_all-Adds, flushed_push-Adds, heading_or_other-Adds,
  flush_list-empty,
}

module _ (q : Content → Bool) where
  code_off : (b : Bool) (ts : List Text) → b ≡ false → code_count q b ts ≡ 0
  code_off false ts h = refl
  code_off true ts h = cc

  code_on : (b : Bool) (ts : List Text) → b ≡ true → code_count q b ts ≡ count q (map of_code ts)
  code_on true ts h = refl
  code_on false ts h = cc

  fence-Adds :
      (t : Rendering)
      → IsTyped t.list_type t.list_buf
      → (total q (on_fence t) ≡ total q t)
        × ((on_fence t).in_code ≡ not t.in_code)
        × IsTyped (on_fence t).list_type (on_fence t).list_buf
  unfolding on_fence total
  fence-Adds t h =
      branch_by
        (λ (u : Rendering).
          (total q u ≡ total q t) × (u.in_code ≡ not t.in_code) × IsTyped u.list_type u.list_buf)
        (not t.in_code)
        (λ opens.
          let u = flush_all t in
          let flushed = flush_all-Adds q t h in
          (
            omega (
              arith,
              flushed.grows,
              code_off t.in_code t.code_buf (ground (arith, opens)),
              code_off u.in_code u.code_buf (flushed.same_mode ∙ ground (arith, opens)),
            ),
            sym opens,
            flushed.typed,
          ))
        (λ closes. (
          omega (
            arith,
            count-out q t.out (code_block t.code_buf),
            code_on t.in_code t.code_buf (ground (arith, closes)),
          ),
          sym closes,
          h,
        ))

  -- A line that is no fence, in code or outside of it.
  in_mode-Adds :
      (line : Text) (t : Rendering) (b : Bool)
      → t.in_code ≡ b
      → IsTyped t.list_type t.list_buf
      → Adds q t (count q (if b then of_code line ∷ [] else said line)) (
          if b
          then record t { code_buf = t.code_buf ++ line ∷ [] }
          else if is_blank_line line
          then flush_all t
          else if is_rule line
          then push rule (flush_all t)
          else heading_or_other line (heading_of line) t)
  unfolding total
  in_mode-Adds line t true e h = record {
    grows = omega (
      arith,
      code_on t.in_code t.code_buf e,
      code_on t.in_code (t.code_buf ++ line ∷ []) e,
      count-map q of_code t.code_buf line,
    );
    same_mode = refl;
    typed = h;
  }
  in_mode-Adds line t false e h =
      branch_both (λ (cs : List Content) (u : Rendering). Adds q t (count q cs) u)
        (is_blank_line line) (flush_all-Adds q t h)
        (branch_both (λ (cs : List Content) (u : Rendering). Adds q t (count q cs) u) (is_rule line)
          (flushed_push-Adds q rule t h) (heading_or_other-Adds q line (heading_of line) t h))

  line-Adds :
      (line : Text) (t : Rendering)
      → is_fence line ≡ false
      → IsTyped t.list_type t.list_buf
      → Adds q t (count q (if t.in_code then of_code line ∷ [] else said line)) (on_line line t)
  unfolding on_line
  line-Adds line t f h =
      branch_false (Adds q t (count q (if t.in_code then of_code line ∷ [] else said line)))
        (is_fence line) (on_fence t) f (in_mode-Adds line t t.in_code refl h)

  on_line-fence : (line : Text) (t : Rendering) → is_fence line ≡ true → on_line line t ≡ on_fence t
  unfolding on_line
  on_line-fence line t f = branch_true (λ (r : Rendering). r ≡ on_fence t) (is_fence line) _ f refl

  lines-kept :
      (lines : List Text) (t : Rendering)
      → IsTyped t.list_type t.list_buf
      → total q (on_lines lines t) ≡ total q t + count q (kept t.in_code lines)
  unfolding on_lines
  lines-kept [] t h = omega arith
  lines-kept (line ∷ lines) t h = elim (Bool-cases (is_fence line)) [
    | inl f ↦
        let u = on_fence t in
        let fenced = fence-Adds t h in
        subst
          (λ (r : Rendering).
            total q (on_lines lines r) ≡ total q t + count q (kept t.in_code (line ∷ lines)))
          (sym (on_line-fence line t f))
          (branch_true (λ (cs : List Content). total q (on_lines lines u) ≡ total q t + count q cs)
            (is_fence line) _ f
            (omega (
              arith,
              lines-kept lines u fenced.2,
              fenced.0,
              ap (λ (b : Bool). count q (kept b lines)) fenced.1,
            )))
    | inr f ↦
        let now = if t.in_code then of_code line ∷ [] else said line in
        let added = line-Adds line t f h in
        branch_false
          (λ (cs : List Content).
            total q (on_lines lines (on_line line t)) ≡ total q t + count q cs)
          (is_fence line) (kept (not t.in_code) lines) f
          (omega (
            arith,
            lines-kept lines (on_line line t) added.typed,
            added.grows,
            ap (λ (b : Bool). count q (kept b lines)) added.same_mode,
            count-append q now (kept t.in_code lines),
          ))
  ]

  lines-IsTyped :
      (lines : List Text) (t : Rendering)
      → IsTyped t.list_type t.list_buf
      → IsTyped (on_lines lines t).list_type (on_lines lines t).list_buf
  unfolding on_lines
  lines-IsTyped [] t h = h
  lines-IsTyped (line ∷ lines) t h = elim (Bool-cases (is_fence line)) [
    | inl f ↦
        subst (λ (r : Rendering). IsTyped (on_lines lines r).list_type (on_lines lines r).list_buf)
          (sym (on_line-fence line t f)) (lines-IsTyped lines (on_fence t) (fence-Adds t h).2)
    | inr f ↦ lines-IsTyped lines (on_line line t) (line-Adds line t f h).typed
  ]

  code_none : (b : Bool) (ts : List Text) → (b && some_of ts) ≡ false → code_count q b ts ≡ 0
  code_none false ts h = refl
  code_none true [] h = refl
  code_none true (t ∷ ts) h = cc

  flush_list-para : (u : Rendering) → (flush_list u).para_buf ≡ u.para_buf
  unfolding flush_list
  flush_list-para u =
      branch (λ (r : Rendering). r.para_buf ≡ u.para_buf) (some_of u.list_buf) refl refl

  flush_para-empty : (u : Rendering) → (flush_para u).para_buf ≡ []
  unfolding flush_para
  flush_para-empty u =
      branch_by (λ (r : Rendering). r.para_buf ≡ []) (some_of u.para_buf) (λ some. refl)
        (none-empty u.para_buf)
    where
      none-empty : (ts : List Text) → some_of ts ≡ false → ts ≡ []
      none-empty [] h = refl
      none-empty (t ∷ ts) h = cc

  finish-kept :
      (t : Rendering)
      → IsTyped t.list_type t.list_buf
      → count q (all_contents (finish t)) ≡ total q t
  unfolding finish total
  finish-kept t h =
      let u = flush_all t in
      let flushed = flush_all-Adds q t h in
      let para =
        ap (λ (l : List Text). count q (map of_paragraph l))
          (flush_list-para (flush_para t) ∙ flush_para-empty t) in
      let list =
        ap (λ (l : List Entry). count q (map (of_entry (type_or_ul u.list_type)) l))
          (flush_list-empty q (flush_para t)) in
      branch_by (λ (bs : List Block). count q (all_contents bs) ≡ total q t)
        (u.in_code && some_of u.code_buf)
        (λ open_code. omega (
          arith,
          flushed.grows,
          para,
          list,
          count-out q u.out (code_block u.code_buf),
          code_on u.in_code u.code_buf (ground (arith, open_code)),
        ))
        (λ none_left.
          omega (arith, flushed.grows, para, list, code_none u.in_code u.code_buf none_left))

-- The blocks of a text have what its lines say, each line once and nothing else: of any kind of
-- content there is as much in the blocks as in the lines, where only the fences tell what is code.
pub blocks-kept :
    (q : Content → Bool) (lines : List Text)
    → count q (all_contents (blocks lines)) ≡ count q (kept false lines)
unfolding blocks total
blocks-kept q lines = omega (
  arith,
  finish-kept q (on_lines lines start) (lines-IsTyped q lines start refl),
  lines-kept q lines start refl,
)
