-- ===== src/Session/Tests.antt =====
-- A browser whose storage is a list, and a codec that stands in for `JSON`; the laws of the session
-- state at inputs, and tests.
use nafir.Base.{
  ℕ, zero, suc, ◌≤◌, ◌<◌, ◌^◌, ◌≡◌, ◌≢◌, true, List, [], ◌∷◌, ◌++◌, map, arith, Text, refl, ap,
  codes, length, take, drop, Option, none, some, if◌then◌else◌, text_eq, text_eq_iff, text_eq_refl,
  length-append, ◌∙◌,
}
use nafir.Value.{
  Value, null, int, str, arr, obj, Fields, end, field, items, elements, put, get, property, cons,
}
use nafir.Session.Browser.{Platform, IsDocumented}
use nafir.Session.{
  plus_one, Tab, mark_handled, is_handled, read_handled_ids, next_checkpoint_revision, load_session,
  save_session, write_scroll_y, read_scroll_y, write_handled_ids,
}
use nafir.Session.Revision.{Call, load, save, mark, step, run, next_increases}
use nafir.Session.Record.{load-save_session, stamped}
use nafir.Session.Scroll.{read_scroll_y-run}
use nafir.Session.Marks.{is_handled-mark_handled}

abbrev pub Entries : Type 0
Entries = List (Text × Text)

unfoldable pub find_entry : Entries → Text → Option Text
find_entry [] k = none
find_entry ((j, v) ∷ s) k = if text_eq j k then some v else find_entry s k

unfoldable pub set_entry : Entries → Text → Text → Entries
set_entry s k v = (k, v) ∷ s

unfoldable pub remove_entry : Entries → Text → Entries
remove_entry [] k = []
remove_entry ((j, v) ∷ s) k =
    let rest = remove_entry s k in if text_eq j k then rest else (j, v) ∷ rest

-- Each text behind its length.
write_texts : List Value → Text
write_texts [] = []
write_texts (str t ∷ ts) = length t ∷ t ++ write_texts ts
write_texts (_ ∷ ts) = write_texts ts

read_texts : ℕ → Text → List Value
read_texts zero s = []
read_texts (suc f) [] = []
read_texts (suc f) (n ∷ s) = str (take n s) ∷ read_texts f (drop n s)

-- An object is written with its `id` and its revision, which is all that the tests save.
write_fields : Fields → Text
write_fields (field _ (str id) (field _ (int n) _)) = n ∷ id
write_fields _ = []

unfoldable pub encode : Value → Text
unfolding write_texts write_fields
encode (arr vs) = 1 ∷ write_texts (elements vs)
encode (obj fs) = 2 ∷ write_fields fs
encode _ = 0 ∷ []

unfoldable pub decode : Text → Option Value
unfolding read_texts
decode (suc zero ∷ s) = some (arr (items (read_texts (length s) s)))
decode (suc (suc zero) ∷ n ∷ id) =
    some (obj (field (codes "id") (str id) (field (codes "checkpointRevision") (int n) end)))
decode _ = none

abbrev pub browser : Platform
browser = record {
  Store = Entries;
  Number = ℕ;
  get_item = λ s k. some (find_entry s k);
  set_item = λ s k v. some (set_entry s k v);
  remove_item = λ s k. some (remove_entry s k);
  parse = decode;
  stringify = encode;
  show = λ n. n ∷ [];
  parse_float = λ t. elim t [ [] ↦ none | n ∷ _ ↦ some n ];
}

take-append : (t s : Text) → take (length t) (t ++ s) ≡ t
take-append [] s = refl
take-append (c ∷ t) s = ap (c ∷◌) (take-append t s)

drop-append : (t s : Text) → drop (length t) (t ++ s) ≡ s
drop-append [] s = refl
drop-append (c ∷ t) s = drop-append t s

read-write_texts :
    (f : ℕ) (ids : List Text)
    → length (write_texts (elements (items (map str ids)))) ≤ f
    → read_texts f (write_texts (elements (items (map str ids)))) ≡ elements (items (map str ids))
unfolding read_texts write_texts
read-write_texts zero [] h = refl
read-write_texts (suc f) [] h = refl
read-write_texts zero (t ∷ ids) h = absurd (omega arith)
read-write_texts (suc f) (t ∷ ids) h =
    rw
      (
        take-append t (write_texts (elements (items (map str ids)))),
        drop-append t (write_texts (elements (items (map str ids)))),
      )
      (ap (str t ∷◌) (
        read-write_texts f ids
          (omega (arith, length-append t (write_texts (elements (items (map str ids))))))))

items-elements : (ids : List Text) → items (elements (items (map str ids))) ≡ items (map str ids)
items-elements [] = refl
items-elements (t ∷ ids) = ap (cons (str t)) (items-elements ids)

find-remove_self : (s : Entries) (k : Text) → find_entry (remove_entry s k) k ≡ none
unfolding find_entry remove_entry
find-remove_self [] k = refl
find-remove_self ((j, v) ∷ s) k = ground (arith, find-remove_self s k)

find-remove_ne :
    (s : Entries) (k j : Text) → k ≢ j → find_entry (remove_entry s k) j ≡ find_entry s j
unfolding find_entry remove_entry
find-remove_ne [] k j ne = refl
find-remove_ne ((i, v) ∷ s) k j ne =
    ground (arith, text_eq_iff i k, text_eq_iff i j, find-remove_ne s k j ne)

pub decode-encode :
    (ids : List Text)
    → decode (encode (arr (items (map str ids)))) ≡ some (arr (items (map str ids)))
unfolding decode encode
decode-encode ids =
    let texts = write_texts (elements (items (map str ids))) in
    ap (λ vs. some (arr (items vs))) (read-write_texts (length texts) ids (omega arith))
    ∙ ap (λ vs. some (arr vs)) (items-elements ids)

pub encode-ne-nil : (v : Value) → encode v ≢ []
unfolding encode
encode-ne-nil (arr vs) = λ e. cc
encode-ne-nil null = λ e. cc
encode-ne-nil _ = λ e. cc

find-set_self : (s : Entries) (k v : Text) → find_entry (set_entry s k v) k ≡ some v
unfolding find_entry set_entry
find-set_self s k v = rw (text_eq_refl k)

find-set_ne : (s : Entries) (k j v : Text) → k ≢ j → find_entry (set_entry s k v) j ≡ find_entry s j
unfolding find_entry set_entry
find-set_ne s k j v ne = ground (arith, text_eq_iff k j)

pub browser_documented : IsDocumented browser
browser_documented = record {
  get-set_self = λ s k v e. cc (find-set_self s k v);
  get-set_ne = λ s k j v ne e. cc (find-set_ne s k j v ne);
  get-remove_self = λ s k e. cc (find-remove_self s k);
  get-remove_ne = λ s k j ne e. cc (find-remove_ne s k j ne);
  parse-stringify = decode-encode;
  stringify-ne-nil = encode-ne-nil;
}

abbrev tab : Tab browser
tab = record { prefix = codes "live"; owner = codes "o"; revision = 3; store = [] }

abbrev calls : List (Call browser)
calls = mark (codes "a") ∷ save (some (obj (field (codes "id") (str (codes "a")) end))) ∷ load ∷ []

revision_after_calls : (run browser (next_checkpoint_revision browser tab).0 calls).revision ≡ 4
unfolding run step next_checkpoint_revision mark_handled write_handled_ids plus_one load_session
    save_session find_entry set_entry encode decode property put get
revision_after_calls = refl

next_increases_example :
    (next_checkpoint_revision browser tab).1
    < (next_checkpoint_revision browser
        (run browser (next_checkpoint_revision browser tab).0 calls)).1
next_increases_example = next_increases browser tab calls (omega (arith, revision_after_calls))

-- At 2^53 the revision does not grow any more.
revision_stays : plus_one (2 ^ 53) ≡ 2 ^ 53
unfolding plus_one
revision_stays = refl

is_handled-mark_handled_example :
    (is_handled browser (mark_handled browser tab (codes "a")) (codes "a") ≡ true)
    × (length (read_handled_ids browser (mark_handled browser tab (codes "a"))) ≤ 8)
unfolding mark_handled write_handled_ids
is_handled-mark_handled_example =
    is_handled-mark_handled browser browser_documented tab (codes "a")
      (mark_handled browser tab (codes "a")) refl refl refl (_, refl)

abbrev record_a : Fields
record_a = field (codes "id") (str (codes "a")) (field (codes "checkpointRevision") (int 0) end)

load-save_session_example :
    load_session browser (save_session browser tab (some (obj record_a))) ≡ (
      record (save_session browser tab (some (obj record_a))) { revision = 3 },
      some (stamped 3 record_a),
    )
unfolding save_session put get property encode decode
load-save_session_example =
    load-save_session browser browser_documented tab
      (save_session browser tab (some (obj record_a))) record_a refl (_, refl) refl refl refl

read_scroll_y-run_example :
    read_scroll_y browser (run browser (write_scroll_y browser tab 40) calls) ≡ some 40
unfolding run write_scroll_y mark_handled write_handled_ids save_session load_session put get
    property encode decode find_entry set_entry
read_scroll_y-run_example =
    read_scroll_y-run browser browser_documented tab
      (run browser (write_scroll_y browser tab 40) calls) 40 calls (_, refl) refl
      (tt, (tt, (tt, tt))) refl refl

eight_kept :
    read_handled_ids browser
      (run browser tab (mark (codes "a") ∷ mark (codes "bb") ∷ mark (codes "a") ∷ []))
    ≡ codes "bb" ∷ codes "a" ∷ []
unfolding run read_handled_ids mark_handled write_handled_ids encode decode find_entry set_entry
eight_kept = refl
