-- ===== src/Recovery/State/Save/Applied.antt =====
-- What `applySavedSessionMeta` reads of a saved session.
use nafir.Base.{
  ℕ, ◌≡◌, false, Option, none, some, List, [], ◌∷◌, if◌then◌else◌, Text, codes, text_eq,
  text_eq_iff, Bool-cases, inl, inr, ap, refl, sym, ◌∙◌, arith,
}
use nafir.Value.{Value, str, int, get, get-put_ne, property}
use nafir.Session.Record.{stamped}
use nafir.Recovery.Summary.{or_else}
use nafir.Recovery.Meta.{
  or_file, mode_of, remember, remember_session_file_meta, normalize_session_path,
}
use nafir.Recovery.State.{
  with_mode, is_finite, is_agent, copy_of, Choices, Counters, Outside, apply_meta,
}
use nafir.Recovery.State.Save.Over.{
  over, IsSaveable, or_else-present, or_else-nullable, finite-saved, is_agent-saved,
  normalize-present, mode_of-present, or_file-none, files-remembered,
}
use nafir.Recovery.State.Save.{fields_of, session_entries, Place, present, text_value, nullable}

-- The value of a key that stands in the list, or in the rest if it is `undefined` here.
abbrev pub else_value : Option Value → Option Value → Option Value
else_value none w = w
else_value (some v) w = some v

abbrev pub lookup : Text → List (Text × Option Value) → Option Value
lookup k [] = none
lookup k ((j, v) ∷ es) = if text_eq j k then else_value v (lookup k es) else lookup k es

get-fields_of : (k : Text) (es : List (Text × Option Value)) → get k (fields_of es) ≡ lookup k es
unfolding get
get-fields_of k [] = refl
get-fields_of k ((j, none) ∷ es) = elim (Bool-cases (text_eq j k)) [
  | inl same ↦ rw same (get-fields_of k es)
  | inr differ ↦ rw differ (get-fields_of k es)
]
get-fields_of k ((j, some v) ∷ es) = elim (Bool-cases (text_eq j k)) [
  | inl same ↦ rw same refl
  | inr differ ↦ rw (differ, get) (get-fields_of k es)
]

else_value-none : (v : Option Value) → else_value v none ≡ v
else_value-none none = refl
else_value-none (some v) = refl

-- The session that `save_session` of the tab's storage stamps with its revision.
abbrev pub stamp_key : Text
stamp_key = codes "checkpointRevision"

-- The value has the properties of the list, whatever it has as a stamp.
unfoldable pub Reads : Value → List (Text × Option Value) → Type 0
Reads saved es = (k : Text) → text_eq stamp_key k ≡ false → property k saved ≡ lookup k es

pub stamped-Reads :
    (revision : ℕ) (es : List (Text × Option Value)) → Reads (stamped revision (fields_of es)) es
unfolding Reads property
stamped-Reads revision es k apart =
    get-put_ne stamp_key k (int revision) (fields_of es)
      (λ same. ground (arith, apart, text_eq_iff stamp_key k, same))
    ∙ get-fields_of k es

pub property-saved :
    (saved : Value) (es : List (Text × Option Value)) (k : Text) (w : Option Value)
    → Reads saved es
    → text_eq stamp_key k ≡ false
    → lookup k es ≡ else_value w none
    → property k saved ≡ w
unfolding Reads
property-saved saved es k w reads apart h = reads k apart ∙ h ∙ else_value-none w

module _ (o : Outside) (page : Place) (id : Text) (v w : Choices) (c : Counters) (saved : Value)
    (reads : Reads saved (session_entries o.show page id v c)) where
  is :
      (k : Text) (x : Option Value)
      → text_eq stamp_key k ≡ false
      → lookup k (session_entries o.show page id v c) ≡ else_value x none
      → property k saved ≡ x
  is k x = property-saved saved (session_entries o.show page id v c) k x reads

  nullable_is :
      (k : Text) (x y : Option Value)
      → property k saved ≡ nullable x
      → or_else (property k saved) y ≡ or_else x y
  nullable_is k x y e = ap (λ (r : Option Value). or_else r y) e ∙ or_else-nullable x y

  present_is :
      (k : Text) (x y : Option Value)
      → property k saved ≡ present x
      → or_else (property k saved) y ≡ or_else x y
  present_is k x y e = ap (λ (r : Option Value). or_else r y) e ∙ or_else-present x y

  file_is :
      (k : Text) (f : Option Text)
      → normalize_session_path (text_value f) ≡ f
      → property k saved ≡ present (text_value f)
      → normalize_session_path (property k saved) ≡ f
  file_is k f normal e = ap normalize_session_path e ∙ normalize-present f normal

  files_are :
      IsSaveable v
      → with_mode (property (codes "previewMode") saved) (remember_session_file_meta saved w.files)
        ≡ (over v w).files
  unfolding remember_session_file_meta
  files_are h =
      let mode : Option Value = v.files.preview_mode in
      let mode_is = is (codes "previewMode") (present mode) refl refl in
      let no_file = file_is (codes "file") none refl (is (codes "file") none refl refl) in
      let source_is =
        file_is (codes "sourceFile") v.files.source_file h.source_file (is _ _ refl refl) in
      let preview_is =
        file_is (codes "previewFile") v.files.preview_file h.preview_file (is _ _ refl refl) in
      (λ i. with_mode (mode_is i) (
        remember (no_file i) (source_is i) (preview_is i)
          (mode_of (mode_is i) (or_file (preview_is i) (no_file i))) w.files))
      ∙ ap
          (λ (m : Option Value).
            with_mode (present mode)
              (remember none v.files.source_file v.files.preview_file m w.files))
          (ap (mode_of (present mode)) (or_file-none v.files.preview_file)
            ∙ mode_of-present mode v.files.preview_file
            ∙ h.preview_mode)
      ∙ files-remembered v.files.source_file v.files.preview_file mode w.files

  anchor_is :
      (let read = property (codes "pickedAnchorViewportTop") saved in
        if is_finite read then read else w.anchor_top)
      ≡ (over v w).anchor_top
  anchor_is =
      ap (λ (r : Option Value). if is_finite r then r else w.anchor_top)
        (is (codes "pickedAnchorViewportTop")
          (if is_finite v.anchor_top then v.anchor_top else none) refl refl)
      ∙ finite-saved v.anchor_top w.anchor_top

  values_are :
      IsSaveable v
      → copy_of o.show (property (codes "paramValues") saved) w.param_values ≡ v.param_values
  values_are h =
      ap (λ (r : Option Value). copy_of o.show r w.param_values)
        (is (codes "paramValues") (some (copy_of o.show (some v.param_values) v.param_values)) refl
          refl)
      ∙ ap (λ (r : Value). copy_of o.show (some (copy_of o.show (some r) r)) w.param_values)
          h.param_values
      ∙ sym h.param_values

  agent_is : is_agent (property (codes "origin") saved) ≡ v.by_agent
  agent_is =
      ap is_agent
        (is (codes "origin") (if v.by_agent then some (str (codes "agent")) else none) refl refl)
      ∙ is_agent-saved v.by_agent

  -- A page that applies what another one saved, with a fresh state or with one that the helper's
  -- summary has set before, has the variables of the saving page, and its own where these are null.
  pub apply_meta-over : IsSaveable v → apply_meta o saved w ≡ over v w
  unfolding apply_meta
  apply_meta-over h i = record {
    files = files_are h i;
    insert_placeholder =
        present_is (codes "insertPlaceholder") v.insert_placeholder w.insert_placeholder
          (is _ _ refl refl) i;
    picked_anchor =
        present_is (codes "pickedAnchor") v.picked_anchor w.picked_anchor (is _ _ refl refl) i;
    anchor_top = anchor_is i;
    action = nullable_is (codes "action") v.action w.action (is _ _ refl refl) i;
    count = nullable_is (codes "count") v.count w.count (is _ _ refl refl) i;
    param_values = values_are h i;
    parameter_state =
        nullable_is (codes "parameterState") v.parameter_state w.parameter_state (is _ _ refl refl)
          i;
    by_agent = agent_is i;
    phase =
        ap (λ (r : Option Value). or_else r w.phase) (is (codes "generationPhase") none refl refl)
          i;
  }
