-- ===== src/Recovery/State/Tests.antt =====
-- A session that is saved before a reload and resumed behind it, and the bounds of its counters.
use nafir.Base.{
  ℕ, zero, suc, ◌≡◌, ◌≢◌, true, false, Option, none, some, List, [], ◌∷◌, ◌++◌, take, drop, length,
  map, Text, codes, refl, arith, trim,
}
use nafir.Value.{Value, null, int, str, obj, arr, Fields, items, end, field, get, put, property}
use nafir.Session.Browser.{Platform, IsDocumented}
use nafir.Session.{Tab, load_session, save_session}
use nafir.Session.Tests.{
  browser, browser_documented, encode, decode, encode-ne-nil, decode-encode, find_entry, set_entry,
}
use nafir.Recovery.Meta.{reset_session_file_meta, normalize_session_path}
use nafir.Recovery.State.{
  Outside, Choices, Counters, apply_saved_session_meta, resume, restored_counters,
}
use nafir.Recovery.State.Save.{Place, save_own_session}
use nafir.Recovery.State.Save.Over.{over}
use nafir.Recovery.State.Save.RoundTrip.{saved_value, IsRestored, resume-save_own_session}
use nafir.Recovery.State.Bounds.{missing, counted, IsInRange, restored_counters-IsInRange}

-- A text, a number, null and an empty object, each behind its kind; a key behind its length.
write_object : Fields → Text
write_object end = []
write_object (field k (str t) fs) = 0 ∷ length k ∷ k ++ (length t ∷ t ++ write_object fs)
write_object (field k (int n) fs) = 1 ∷ length k ∷ k ++ (n ∷ write_object fs)
write_object (field k null fs) = 2 ∷ length k ∷ k ++ write_object fs
write_object (field k _ fs) = 3 ∷ length k ∷ k ++ write_object fs

read_value : (Text → Fields) → ℕ → Text → Text → Fields
read_value rest zero k (n ∷ s) = field k (str (take n s)) (rest (drop n s))
read_value rest (suc zero) k (n ∷ s) = field k (int n) (rest s)
read_value rest (suc (suc zero)) k s = field k null (rest s)
read_value rest (suc (suc (suc _))) k s = field k (obj end) (rest s)
read_value rest _ k s = end

read_object : ℕ → Text → Fields
unfolding read_value
read_object zero s = end
read_object (suc f) (kind ∷ n ∷ s) = read_value (λ r. read_object f r) kind (take n s) (drop n s)
read_object (suc f) _ = end

write : Value → Text
unfolding write_object
write (obj fs) = 3 ∷ write_object fs
write v = encode v

read : Text → Option Value
unfolding read_object
read (suc (suc (suc zero)) ∷ s) = some (obj (read_object (length s) s))
read s = decode s

write-ne-nil : (v : Value) → write v ≢ []
unfolding write
write-ne-nil (obj fs) = λ e. cc
write-ne-nil (arr vs) = encode-ne-nil (arr vs)
write-ne-nil null = encode-ne-nil null
write-ne-nil _ = encode-ne-nil _

read-write :
    (ids : List Text) → read (write (arr (items (map str ids)))) ≡ some (arr (items (map str ids)))
unfolding read write encode
read-write ids = decode-encode ids

abbrev storage : Platform
storage = record browser { stringify = write; parse = read }

storage_documented : IsDocumented storage
storage_documented = record {
  get-set_self = browser_documented.get-set_self;
  get-set_ne = browser_documented.get-set_ne;
  get-remove_self = browser_documented.get-remove_self;
  get-remove_ne = browser_documented.get-remove_ne;
  parse-stringify = read-write;
  stringify-ne-nil = write-ne-nil;
}

abbrev tab : Tab storage
tab = record { prefix = codes "live"; owner = codes "o"; revision = 3; store = [] }

abbrev pub outside : Outside
outside = record { number = λ v. none; show = λ n. n ∷ []; finds = λ v. false }

abbrev pub page : Place
page = record {
  app_root = codes "/app";
  state = codes "CYCLING";
  pathname = codes "/shop";
  hash = [];
  search = codes "?q=1";
}

abbrev pub fresh : Choices
fresh = record {
  files = reset_session_file_meta;
  insert_placeholder = none;
  picked_anchor = none;
  anchor_top = none;
  action = some (str (codes "impeccable"));
  count = some (int 3);
  param_values = obj end;
  parameter_state = some (str (codes "idle"));
  by_agent = false;
  phase = none;
}

-- The second of two variants that arrived, of three.
abbrev chosen : Choices
chosen = record fresh {
  files = record { source_file = some (codes "a.html"); preview_file = none; preview_mode = none };
  anchor_top = some (int 40);
  action = some (str (codes "bolder"));
  by_agent = true;
}

abbrev counters : Counters
counters = record { expected = some 3; arrived = some 2; visible = 2 }

abbrev summary : Option Value
summary = some (
    obj (
      field (codes "visibleVariant") (int 1)
        (field (codes "generationPhase") (str (codes "ready")) end)))

resume-save_own_session_example :
    ((load_session storage
        (save_own_session storage outside.show page (codes "s1") chosen counters tab)).1
      ≡ some (saved_value outside page (codes "s1") chosen counters 3))
    × IsRestored
        (resume outside
          (λ t. t)
          (saved_value outside page (codes "s1") chosen counters 3, summary)
          fresh)
        (codes "s1")
        (over chosen (apply_saved_session_meta outside summary fresh))
        counters
unfolding save_own_session save_session read write encode find_entry set_entry
    normalize_session_path trim put property read_object write_object
resume-save_own_session_example =
    resume-save_own_session storage storage_documented outside (λ t. t) page (codes "s1") chosen
      fresh counters summary tab
      (save_own_session storage outside.show page (codes "s1") chosen counters tab) refl
      (record {
        source_file = refl;
        preview_file = refl;
        preview_mode = refl;
        values = end;
        param_values = refl;
      })
      (record {
        more_expected = 2;
        more_arrived = 1;
        expected = refl;
        arrived = refl;
        some_visible = omega arith;
        visible = omega arith;
      })
      (_, refl) refl refl refl

-- A saved index beyond the two variants that arrived.
abbrev torn : Value
torn = obj (field (codes "arrived") (int 2) (field (codes "visible") (int 7) end))

restored_counters-IsInRange_example :
    IsInRange (restored_counters outside false (some (int 3)) torn none)
unfolding property get
restored_counters-IsInRange_example =
    restored_counters-IsInRange outside false 2 torn none (record {
      arrived = counted 2;
      expected = missing;
      server_arrived = missing;
      server_expected = missing;
    })
