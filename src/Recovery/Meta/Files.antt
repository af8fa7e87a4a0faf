-- ===== src/Recovery/Meta/Files.antt =====
-- The source file is never the manifest of a component.
use nafir.Base.{
  ◌≡◌, false, Option, none, some, List, [], ◌∷◌, All, Text, codes, Bool-cases, inl, inr,
}
use nafir.Value.{Value, property}
use nafir.Recovery.Meta.{
  Meta, normalize_session_path, or_file, is_svelte_component_manifest_path,
  is_framework_component_preview_mode, remember, mode_of, remember_session_file_meta, remember_all,
}

-- A path that is missing, or not one of a manifest.
abbrev pub IsSource : Option Text → Type 0
IsSource file = is_svelte_component_manifest_path file ≡ false

or_file-IsSource : (a b : Option Text) → IsSource a → IsSource b → IsSource (or_file a b)
or_file-IsSource none b ha hb = hb
or_file-IsSource (some f) b ha hb = ha

remember-IsSource :
    (file source preview : Option Text) (mode : Option Value) (m : Meta)
    → IsSource source
    → IsSource m.source_file
    → IsSource (remember file source preview mode m).source_file
unfolding remember
remember-IsSource file source preview mode m hs hm =
    elim (Bool-cases (is_framework_component_preview_mode mode)) [
      | inl framework ↦ rw framework (or_file-IsSource source m.source_file hs hm)
      | inr page ↦ rw page (elim (Bool-cases (is_svelte_component_manifest_path file)) [
        | inl manifest ↦ rw manifest (or_file-IsSource source m.source_file hs hm)
        | inr plain ↦ rw plain (
            or_file-IsSource (or_file source file) m.source_file
              (or_file-IsSource source file hs plain) hm)
      ])
    ]

-- The `sourceFile` of a summary or a saved session names no manifest.
abbrev pub HasSource : Value → Type 0
HasSource meta = IsSource (normalize_session_path (property (codes "sourceFile") meta))

-- The tab's source file is not the manifest of a component, whatever files a summary or a saved
-- session names as `file` and `previewFile`, and in whatever order they come, if none of them names
-- a manifest as its `sourceFile`.
pub remember_all-IsSource :
    (metas : List Value) (m : Meta)
    → All HasSource metas
    → IsSource m.source_file
    → IsSource (remember_all metas m).source_file
unfolding remember_all remember_session_file_meta
remember_all-IsSource [] m h hm = hm
remember_all-IsSource (meta ∷ metas) m h hm =
    remember_all-IsSource metas (remember_session_file_meta meta m) h.1 (
      let own : Text → Option Value = λ k. property k meta in
      let file = normalize_session_path (own (codes "file")) in
      let source = normalize_session_path (own (codes "sourceFile")) in
      let preview = normalize_session_path (own (codes "previewFile")) in
      remember-IsSource file source preview
        (mode_of (own (codes "previewMode")) (or_file preview file)) m h.0 hm)
