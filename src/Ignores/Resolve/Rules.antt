-- ===== src/Ignores/Resolve/Rules.antt =====
-- Which rules and which values `resolveDetectIgnores` waives for a page.
use nafir.Base.{
  ℕ, ◌≡◌, ◌⊎◌, ◌+◌, Bool, ◌||◌, ◌&&◌, not, false, List, [], ◌∷◌, ◌++◌, map, ◌==◌, append_assoc,
  append-nil, sym, Text, codes, contains, is_empty, filter, any, text_eq, length, Bool-cases, inl,
  inr, refl, arith, ◌∙◌,
}
use nafir.Value.{Value, property, as_array}
use nafir.Ignores.Engine.{Engine}
use nafir.Ignores.Page.{page_candidates}
use nafir.Ignores.Page.Identity.{contains-add}
use nafir.Ignores.Resolve.{
  Entry, Ignores, read_entry, matches_scope, globs_of, is_star, in_scope, apply_entry,
  apply_entries, project_rules, resolve_detect_ignores,
}

abbrev pub is_complete : Entry → Bool
is_complete entry = not (is_empty entry.rule) && not (is_empty entry.value)

-- A wildcard that names this page: it waives its rule.
abbrev pub waives_rule : Engine → List Text → Entry → Bool
waives_rule e candidates entry =
    is_complete entry
    && is_star entry.value
    && not (length entry.files == 0)
    && in_scope e candidates entry

-- A single value that is waived everywhere, or on this page.
abbrev pub waives_value : Engine → List Text → Entry → Bool
waives_value e candidates entry =
    is_complete entry
    && not (is_star entry.value)
    && (length entry.files == 0 || in_scope e candidates entry)

abbrev pub pair_of : Entry → Text × Text
pair_of entry = (entry.rule, entry.value)

module _ (e : Engine) (candidates : List Text) where
  rules-apply_entry :
      (entry : Entry) (acc : Ignores) (r : Text)
      → contains (apply_entry e candidates entry acc).disabled_rules r
        ≡ (contains acc.disabled_rules r || waives_rule e candidates entry && text_eq r entry.rule)
  unfolding apply_entry
  rules-apply_entry entry acc r = ground (arith, contains-add acc.disabled_rules entry.rule r)

  values-apply_entry :
      (entry : Entry) (acc : Ignores)
      → (apply_entry e candidates entry acc).disabled_values
        ≡ acc.disabled_values ++ map pair_of (filter (waives_value e candidates) (entry ∷ []))
  unfolding apply_entry
  values-apply_entry entry acc = ground (arith, append-nil acc.disabled_values)

  skip-apply_entries :
      (entries : List Entry) (acc : Ignores)
      → (apply_entries e candidates entries acc).skip_scan ≡ acc.skip_scan
  unfolding apply_entries apply_entry
  skip-apply_entries [] acc = refl
  skip-apply_entries (entry ∷ entries) acc =
      skip-apply_entries entries (apply_entry e candidates entry acc) ∙ ground arith

  rules-apply_entries :
      (entries : List Entry) (acc : Ignores) (r : Text)
      → contains (apply_entries e candidates entries acc).disabled_rules r ≡ (
          contains acc.disabled_rules r
          || any (λ entry. waives_rule e candidates entry && text_eq r entry.rule) entries)
  unfolding apply_entries
  rules-apply_entries [] acc r = ground arith
  rules-apply_entries (entry ∷ entries) acc r =
      rw
        (
          rules-apply_entries entries (apply_entry e candidates entry acc) r,
          rules-apply_entry entry acc r,
        )
        (ground arith)

  values-apply_entries :
      (entries : List Entry) (acc : Ignores)
      → (apply_entries e candidates entries acc).disabled_values
        ≡ acc.disabled_values ++ map pair_of (filter (waives_value e candidates) entries)
  unfolding apply_entries
  values-apply_entries [] acc = sym (append-nil acc.disabled_values)
  values-apply_entries (entry ∷ entries) acc =
      rw
        (
          values-apply_entries entries (apply_entry e candidates entry acc),
          values-apply_entry entry acc,
        )
        (elim (Bool-cases (waives_value e candidates entry)) [
          | inl used ↦ rw used (
              append_assoc acc.disabled_values (pair_of entry ∷ [])
                (map pair_of (filter (waives_value e candidates) entries)))
          | inr unused ↦ rw unused (rw append-nil)
        ])

module _ (e : Engine) (config : Value) (pathname : Text) where
  -- The paths of the page, and what the config says of files and values.
  abbrev pub candidates_of : List Text
  candidates_of =
      page_candidates e pathname (as_array (property (codes "roots") config))
        (as_array (property (codes "pageFiles") config))

  abbrev pub ignored_files : List Text
  ignored_files = globs_of (property (codes "ignoreFiles") config)

  abbrev pub entries_of : List Entry
  entries_of = map (read_entry e) (as_array (property (codes "ignoreValues") config))

  abbrev pub reported : ℕ
  reported =
      length (resolve_detect_ignores e config pathname).disabled_rules
      + length (resolve_detect_ignores e config pathname).disabled_values

  -- The scan is skipped exactly if a glob of `ignoreFiles` names the page, and no rule or value is
  -- reported with a skipped scan.
  pub resolve-skip :
      ((resolve_detect_ignores e config pathname).skip_scan
        ≡ matches_scope e ignored_files candidates_of)
      × ((resolve_detect_ignores e config pathname).skip_scan ≡ false ⊎ reported ≡ 0)
  unfolding resolve_detect_ignores
  resolve-skip = elim (Bool-cases (matches_scope e ignored_files candidates_of)) [
    | inl skipped ↦ rw skipped (refl, inr (omega arith))
    | inr scanned ↦
        let kept = skip-apply_entries e candidates_of entries_of (record {
          disabled_rules = project_rules e (property (codes "ignoreRules") config);
          disabled_values = [];
          skip_scan = false;
        }) in
        rw scanned (kept, inl kept)
  ]

  -- On a page that is not skipped a rule is waived exactly if the project waives it, or an entry
  -- with that rule and the wildcard value has globs and one of them names the page.
  pub rules-resolve :
      (r : Text)
      → matches_scope e ignored_files candidates_of ≡ false
      → contains (resolve_detect_ignores e config pathname).disabled_rules r ≡ (
          contains (project_rules e (property (codes "ignoreRules") config)) r
          || any (λ entry. waives_rule e candidates_of entry && text_eq r entry.rule) entries_of)
  unfolding resolve_detect_ignores
  rules-resolve r scan = rw scan (
      rules-apply_entries e candidates_of entries_of
        (record {
          disabled_rules = project_rules e (property (codes "ignoreRules") config);
          disabled_values = [];
          skip_scan = false;
        })
        r)

  -- On a page that is not skipped the waived values are those of the complete entries whose value
  -- is no wildcard and which have no globs or one that names the page, in the order of the config.
  pub values-resolve :
      matches_scope e ignored_files candidates_of ≡ false
      → (resolve_detect_ignores e config pathname).disabled_values
        ≡ map pair_of (filter (waives_value e candidates_of) entries_of)
  unfolding resolve_detect_ignores
  values-resolve scan = rw scan (
      values-apply_entries e candidates_of entries_of (record {
        disabled_rules = project_rules e (property (codes "ignoreRules") config);
        disabled_values = [];
        skip_scan = false;
      }))
