-- ===== src/Recovery/Meta.antt =====
-- `normalizeSessionPath`, `resetSessionFileMeta` and `rememberSessionFileMeta`: the files of the
-- session that the tab works on.
pub mod Files
use nafir.Base.{
  Bool, true, false, ◌||◌, Option, none, some, List, [], ◌∷◌, map, if◌then◌else◌, ◌==◌, Text, codes,
  text_eq, trim, ends_with,
}
use nafir.Value.{Value, str, property, truthy}

-- The variables `currentSourceFile`, `currentPreviewFile` and `currentPreviewMode`, `none` for null.
pub record Meta : Type 0 where
  pub source_file : Option Text
  pub preview_file : Option Text
  pub preview_mode : Option Value

abbrev pub reset_session_file_meta : Meta
reset_session_file_meta = record { source_file = none; preview_file = none; preview_mode = none }

abbrev pub nonempty : Text → Option Text
nonempty [] = none
nonempty (c ∷ t) = some (c ∷ t)

-- `value.trim()` with `/` for each backslash, if anything is left.
unfoldable pub normalize_session_path : Option Value → Option Text
normalize_session_path (some (str t)) = nonempty (map (λ c. if c == 92 then b'/' else c) (trim t))
normalize_session_path _ = none

abbrev pub or_file : Option Text → Option Text → Option Text
or_file (some file) other = some file
or_file none other = other

abbrev pub is_svelte_component_manifest_path : Option Text → Bool
is_svelte_component_manifest_path none = false
is_svelte_component_manifest_path (some file) = ends_with file (codes "manifest.json")

abbrev pub component_mode : Option Value
component_mode = some (str (codes "svelte-component"))

abbrev pub is_framework_component_preview_mode : Option Value → Bool
is_framework_component_preview_mode (some (str mode)) = text_eq mode (codes "svelte-component")
is_framework_component_preview_mode _ = false

-- `meta.previewMode || (isSvelteComponentManifestPath(…) ? 'svelte-component' : null)`
abbrev pub mode_of : Option Value → Option Text → Option Value
mode_of mode file =
    if truthy mode
    then mode
    else if is_svelte_component_manifest_path file
    then component_mode
    else none

abbrev pub set_mode : Option Value → Option Value → Option Value
set_mode mode current = if truthy mode then mode else current

-- The body behind the four values that are read first.
unfoldable pub remember : Option Text → Option Text → Option Text → Option Value → Meta → Meta
remember file source preview mode m =
    if is_framework_component_preview_mode mode || is_svelte_component_manifest_path file
    then record {
      source_file = or_file source m.source_file;
      preview_file =
          or_file preview (if is_svelte_component_manifest_path file then file else m.preview_file);
      preview_mode = if is_framework_component_preview_mode mode then mode else component_mode;
    }
    else record {
      source_file = or_file (or_file source file) m.source_file;
      preview_file = or_file preview m.preview_file;
      preview_mode = set_mode mode m.preview_mode;
    }

unfoldable pub remember_session_file_meta : Value → Meta → Meta
unfolding remember normalize_session_path
remember_session_file_meta meta m =
    let file = normalize_session_path (property (codes "file") meta) in
    let source = normalize_session_path (property (codes "sourceFile") meta) in
    let preview = normalize_session_path (property (codes "previewFile") meta) in
    remember file source preview
      (mode_of (property (codes "previewMode") meta) (or_file preview file)) m

unfoldable pub remember_all : List Value → Meta → Meta
unfolding remember_session_file_meta
remember_all [] m = m
remember_all (meta ∷ metas) m = remember_all metas (remember_session_file_meta meta m)
