-- ===== src/Recovery/State/Save/Over.antt =====
-- What a page has that applies a saved session.
use nafir.Base.{
  ◌≡◌, Bool, true, false, Option, none, some, [], ◌∷◌, if◌then◌else◌, Text, codes, Bool-cases, inl,
  inr, refl, ◌∙◌, trim,
}
use nafir.Value.{Value, null, bool, neg, other, arr, str, int, obj, Fields, truthy}
use nafir.Recovery.Summary.{or_else}
use nafir.Recovery.Meta.{
  Meta, or_file, mode_of, remember, normalize_session_path, is_framework_component_preview_mode,
}
use nafir.Recovery.State.{with_mode, is_finite, is_agent, Choices}
use nafir.Recovery.State.Save.{present, text_value, nullable}

-- What a page has that applies a session: the variables of the saving page, and its own where these
-- are null; `generationPhase` is not saved.
abbrev pub over : Choices → Choices → Choices
over v w = record {
  files = record {
    source_file = or_file v.files.source_file w.files.source_file;
    preview_file = or_file v.files.preview_file w.files.preview_file;
    preview_mode = or_else v.files.preview_mode w.files.preview_mode;
  };
  insert_placeholder = or_else v.insert_placeholder w.insert_placeholder;
  picked_anchor = or_else v.picked_anchor w.picked_anchor;
  anchor_top = if is_finite v.anchor_top then v.anchor_top else w.anchor_top;
  action = or_else v.action w.action;
  count = or_else v.count w.count;
  param_values = v.param_values;
  parameter_state = or_else v.parameter_state w.parameter_state;
  by_agent = v.by_agent;
  phase = w.phase;
}

-- The files are as `rememberSessionFileMeta` leaves them, and the values of parameters an object.
pub record IsSaveable (v : Choices) : Type 0 where
  pub source_file : normalize_session_path (text_value v.files.source_file) ≡ v.files.source_file
  pub preview_file : normalize_session_path (text_value v.files.preview_file) ≡ v.files.preview_file
  pub preview_mode : mode_of v.files.preview_mode v.files.preview_file ≡ v.files.preview_mode
  pub values : Fields
  pub param_values : v.param_values ≡ obj values

pub or_else-present : (v w : Option Value) → or_else (present v) w ≡ or_else v w
or_else-present v w = elim (Bool-cases (truthy v)) [ inl t ↦ rw (t, t) refl | inr f ↦ rw (f) refl ]

pub or_else-nullable : (v w : Option Value) → or_else (nullable v) w ≡ or_else v w
or_else-nullable none w = refl
or_else-nullable (some v) w = refl

pub finite-saved :
    (v w : Option Value)
    → (let saved = if is_finite v then v else none in if is_finite saved then saved else w)
      ≡ (if is_finite v then v else w)
finite-saved v w = elim (Bool-cases (is_finite v)) [ inl t ↦ rw (t, t) refl | inr f ↦ rw f refl ]

pub is_agent-saved : (b : Bool) → is_agent (if b then some (str (codes "agent")) else none) ≡ b
is_agent-saved true = refl
is_agent-saved false = refl

pub normalize-present :
    (f : Option Text)
    → normalize_session_path (text_value f) ≡ f
    → normalize_session_path (present (text_value f)) ≡ f
unfolding normalize_session_path trim
normalize-present none h = refl
normalize-present (some []) h = h
normalize-present (some (c ∷ t)) h = h

pub mode_of-present : (m : Option Value) (f : Option Text) → mode_of (present m) f ≡ mode_of m f
mode_of-present m f = elim (Bool-cases (truthy m)) [ inl t ↦ rw (t, t) refl | inr n ↦ rw n refl ]

pub framework-truthy :
    (m : Option Value) → is_framework_component_preview_mode m ≡ true → truthy m ≡ true
framework-truthy none h = h
framework-truthy (some (str [])) h = h
framework-truthy (some (str (c ∷ t))) h = refl
framework-truthy (some null) h = cc
framework-truthy (some (bool b)) h = cc
framework-truthy (some (int n)) h = cc
framework-truthy (some (neg n)) h = refl
framework-truthy (some (other t)) h = refl
framework-truthy (some (arr vs)) h = refl
framework-truthy (some (obj fs)) h = refl

pub or_file-none : (f : Option Text) → or_file f none ≡ f
or_file-none none = refl
or_file-none (some t) = refl

pub or_else-first : (v w w' : Option Value) → truthy v ≡ true → or_else v w ≡ or_else v w'
or_else-first v w w' t = rw t refl

pub or_else-again : (v w : Option Value) → or_else v (or_else v w) ≡ or_else v w
or_else-again v w = elim (Bool-cases (truthy v)) [
  | inl t ↦ or_else-first v (or_else v w) w t
  | inr f ↦ rw f refl
]

pub files-remembered :
    (source preview : Option Text) (mode : Option Value) (m : Meta)
    → with_mode (present mode) (remember none source preview mode m) ≡ record {
      source_file = or_file source m.source_file;
      preview_file = or_file preview m.preview_file;
      preview_mode = or_else mode m.preview_mode;
    }
unfolding remember
files-remembered source preview mode m =
    elim (Bool-cases (is_framework_component_preview_mode mode)) [
      | inl f ↦ rw f (λ i. record {
        source_file = or_file source m.source_file;
        preview_file = or_file preview m.preview_file;
        preview_mode =
            (or_else-present mode mode
                ∙ or_else-first mode mode m.preview_mode (framework-truthy mode f))
              i;
      })
      | inr n ↦ rw n (λ i. record {
        source_file = or_file (or_file-none source i) m.source_file;
        preview_file = or_file preview m.preview_file;
        preview_mode =
            (or_else-present mode (or_else mode m.preview_mode) ∙ or_else-again mode m.preview_mode)
              i;
      })
    ]
