-- ===== src/Session/Browser.antt =====
-- What the session helpers take from the browser: a storage whose calls may throw, `JSON`, and the
-- text of a number. A call that throws is `none`.
use nafir.Base.{◌≡◌, ◌≢◌, Option, none, some, List, [], map, Text}
use nafir.Value.{Value, str, arr, items}

pub record Platform : Type 1 where
  pub Store : Type 0
  pub Number : Type 0
  pub get_item : Store → Text → Option (Option Text)
  pub set_item : Store → Text → Text → Option Store
  pub remove_item : Store → Text → Option Store
  pub parse : Text → Option Value
  pub stringify : Value → Text
  pub show : Number → Text
  -- `parseFloat`; `none` is NaN or an infinity.
  pub parse_float : Text → Option Number

-- The documented behaviour that the laws rely on. A write that does not throw is read back, other
-- keys keep their items, and JSON round-trips an array of strings, whose text is never empty.
pub record IsDocumented (p : Platform) : Type 0 where
  pub get-set_self :
      (s : p.Store) (k v : Text) {s' : p.Store}
      → p.set_item s k v ≡ some s'
      → p.get_item s' k ≡ some (some v)
  pub get-set_ne :
      (s : p.Store) (k j v : Text) {s' : p.Store}
      → k ≢ j
      → p.set_item s k v ≡ some s'
      → p.get_item s' j ≡ p.get_item s j
  pub get-remove_self :
      (s : p.Store) (k : Text) {s' : p.Store}
      → p.remove_item s k ≡ some s'
      → p.get_item s' k ≡ some none
  pub get-remove_ne :
      (s : p.Store) (k j : Text) {s' : p.Store}
      → k ≢ j
      → p.remove_item s k ≡ some s'
      → p.get_item s' j ≡ p.get_item s j
  pub parse-stringify :
      (ids : List Text)
      → p.parse (p.stringify (arr (items (map str ids)))) ≡ some (arr (items (map str ids)))
  pub stringify-ne-nil : (v : Value) → p.stringify v ≢ []
