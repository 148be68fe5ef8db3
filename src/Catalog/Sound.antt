-- ===== src/Catalog/Sound.antt =====
-- domain/catalog.go: every catalog that sources were added to and removed from is sound.
use open_kael.Prelude.{
  sym, inr, inl, has, ap, Bool-cases, List, String, ◌≡◌, ◌∷◌, ◌++◌, [], ◌&&◌, refl, arith, true,
  not, Bool, all, is_some, none, some, Option, lookup, all-append, false,
}
use open_kael.ToolContract.{
  problem, validate_tools, validate_tool, validate_from, same_name, said_if, name_key,
}
use open_kael.Outcome.{is_nil}
use text.Mathlib.TextPositions.{eq_refl}
use open_kael.Catalog.Kept.{
  names_apart-without, names_apart-put_tools, names_apart, keep_apart, drop_from-apart,
  drop_from-all, clear-others, clash, all-without, all-put_tools,
}
use open_kael.Gates.{Texts}
use open_kael.Tools.{model_name, ToolDefinition, Integration, Identity}
use open_kael.Catalog.{
  replace_source, remove_source, owned, of_integration, new_catalog, distinct_tools, checked_tool,
  check_tools, add_source, ToolSource, Catalog,
}
use open_kael.Prelude.Text.{is_empty, eq_iff, ◌=ₛ◌}
use open_kael.Prelude.{
  ◌≡◌, ◌∷◌, true, some, refl, not, none, lookup, is_some, false, arith, all-append, all, [], Option,
  Bool, ◌++◌, ◌&&◌, if_rule, Option-rule,
}

is_nil-append : (a b : List String) → is_nil (a ++ b) ≡ is_nil a && is_nil b
is_nil-append [] b = ground arith
is_nil-append (x ∷ a) b = ground arith

is_nil-said_if : (b : Bool) (text : String) → is_nil (said_if b text) ≡ not b
is_nil-said_if true text = refl
is_nil-said_if false text = refl

module _ {F : Type 0} (t : Texts F) (prompt_fields : String → List String) where
  -- A tool that keeps the contract, and stands under its own id.
  abbrev pub is_valid : ToolDefinition → Bool
  is_valid d = is_nil (validate_tool t prompt_fields d)

  abbrev pub is_kept : String × ToolDefinition → Bool
  is_kept (k, d) = k =ₛ d.id && is_valid d

  -- A sound catalog: every tool keeps the contract, and no model could take one for another of the same
  -- integration.
  pub record Sound (c : Catalog) : Type 0 where
    pub kept : all is_kept c.tools ≡ true
    pub apart : names_apart c.tools ≡ true

  same_name-nil :
      (d : ToolDefinition) (o : Option String)
      → is_nil (same_name t prompt_fields d o) ≡ true
      → o ≡ none
  same_name-nil d none h = refl
  same_name-nil d (some other) h = cc

  clash-name_key :
      (e d : ToolDefinition)
      → clash e d ≡ true
      → name_key t prompt_fields e ≡ name_key t prompt_fields d
  clash-name_key e d h =
      let same_owner = (eq_iff d.integration_id e.integration_id).0 (ground arith) in
      let same = (eq_iff (model_name d) (model_name e)).0 (ground arith) in
      rw (same_owner, same) refl

  validate_from-parts :
      (by_id : List String) (by_name : List (String × String)) (d : ToolDefinition)
      (tools : List ToolDefinition)
      → is_nil (validate_from t prompt_fields by_id by_name (d ∷ tools)) ≡ true
      → (lookup (name_key t prompt_fields d) by_name ≡ none)
        × (is_nil (
              validate_from t prompt_fields
                (d.id ∷ by_id)
                ((name_key t prompt_fields d, d.id) ∷ by_name)
                tools)
            ≡ true)
  unfolding validate_from
  validate_from-parts by_id by_name d tools h =
      let key = lookup (name_key t prompt_fields d) by_name in
      let rest =
        validate_from t prompt_fields (d.id ∷ by_id) ((name_key t prompt_fields d, d.id) ∷ by_name)
          tools in
      let named = same_name t prompt_fields d key in
      let used =
        said_if (has d.id by_id) (problem t prompt_fields d "ID is used by more than one tool") in
      let a = is_nil-append (validate_tool t prompt_fields d) (used ++ named ++ rest) in
      let b = is_nil-append used (named ++ rest) in
      let c = is_nil-append named rest in
      (same_name-nil d key (ground (arith, a, b, c)), ground (arith, a, b, c))

  -- No name of tools that are valid together was given before.
  validate_from-fresh :
      (by_id : List String) (by_name : List (String × String)) (tools : List ToolDefinition)
      (key : String)
      → is_nil (validate_from t prompt_fields by_id by_name tools) ≡ true
      → is_some (lookup key by_name) ≡ true
      → all (λ e. not (name_key t prompt_fields e =ₛ key)) tools ≡ true
  unfolding validate_from lookup
  validate_from-fresh by_id by_name [] key h had = refl
  validate_from-fresh by_id by_name (d ∷ tools) key h had =
      let (new, later) = validate_from-parts by_id by_name d tools h in
      elim (Bool-cases (name_key t prompt_fields d =ₛ key)) [
        | inl same ↦
            let it = (eq_iff (name_key t prompt_fields d) key).0 same in
            let never : false ≡ true = rw (sym (ap is_some new), it) had in cc
        | inr other ↦ ground (
          arith,
          validate_from-fresh (d.id ∷ by_id) ((name_key t prompt_fields d, d.id) ∷ by_name) tools
              key later (rw other had),
        )
      ]

  fresh-unclashed :
      (d : ToolDefinition) (tools : List ToolDefinition)
      → all (λ e. not (name_key t prompt_fields e =ₛ name_key t prompt_fields d)) tools ≡ true
      → all (λ e. not (clash e d)) tools ≡ true
  fresh-unclashed d [] h = refl
  fresh-unclashed d (e ∷ tools) h = ground (
    arith,
    fresh-unclashed d tools,
    clash-name_key e d,
    eq_iff (name_key t prompt_fields e) (name_key t prompt_fields d),
  )

  validate_from-apart :
      (by_id : List String) (by_name : List (String × String)) (tools : List ToolDefinition)
      → is_nil (validate_from t prompt_fields by_id by_name tools) ≡ true
      → keep_apart tools ≡ true
  unfolding validate_from keep_apart lookup
  validate_from-apart by_id by_name [] h = refl
  validate_from-apart by_id by_name (d ∷ tools) h =
      let (new, later) = validate_from-parts by_id by_name d tools h in
      let fresh =
        validate_from-fresh (d.id ∷ by_id) ((name_key t prompt_fields d, d.id) ∷ by_name) tools
          (name_key t prompt_fields d) later (rw (eq_refl (name_key t prompt_fields d)) refl) in
      ground (
        arith,
        fresh-unclashed d tools fresh,
        validate_from-apart (d.id ∷ by_id) ((name_key t prompt_fields d, d.id) ∷ by_name) tools
            later,
      )

  distinct_tools-apart :
      (keep : List ToolDefinition) → keep_apart (distinct_tools t prompt_fields keep) ≡ true
  distinct_tools-apart keep =
      if_rule (λ ds. keep_apart ds ≡ true) (is_nil (validate_tools t prompt_fields keep))
        (λ together. validate_from-apart [] [] keep together) (λ apart. drop_from-apart [] [] keep)

  distinct_tools-all :
      (q : ToolDefinition → Bool) (keep : List ToolDefinition)
      → all q keep ≡ true
      → all q (distinct_tools t prompt_fields keep) ≡ true
  distinct_tools-all q keep h =
      if_rule (λ ds. all q ds ≡ true) (is_nil (validate_tools t prompt_fields keep)) (λ together. h)
        (λ apart. drop_from-all q [] [] keep h)

  abbrev is_own : Integration → ToolDefinition → Bool
  is_own i d = d.integration_id =ₛ i.id && is_valid d

  checked_tool-own :
      (i : Integration) (d : ToolDefinition)
      → all (is_own i) (checked_tool t prompt_fields i d).1 ≡ true
  checked_tool-own i d =
      if_rule (λ (r : List String × List ToolDefinition). all (is_own i) r.1 ≡ true)
        (not (d.integration_id =ₛ i.id)) (λ other. refl)
        (λ own.
          if_rule (λ (r : List String × List ToolDefinition). all (is_own i) r.1 ≡ true)
            (is_valid d) (λ valid. ground arith) (λ invalid. refl))

  check_tools-own :
      (i : Integration) (tools : List ToolDefinition)
      → all (is_own i) (check_tools t prompt_fields i tools).1 ≡ true
  unfolding check_tools
  check_tools-own i [] = refl
  check_tools-own i (d ∷ tools) = ground (
    arith,
    all-append (is_own i) (checked_tool t prompt_fields i (owned i d)).1
        (check_tools t prompt_fields i tools).1,
    checked_tool-own i (owned i d),
    check_tools-own i tools,
  )

  all-own :
      (i : Integration) (keep : List ToolDefinition)
      → all (is_own i) keep ≡ true
      → all (λ d. d.integration_id =ₛ i.id) keep ≡ true
  all-own i [] h = refl
  all-own i (d ∷ keep) h = ground (arith, all-own i keep)

  all-kept :
      (i : Integration) (keep : List ToolDefinition)
      → all (is_own i) keep ≡ true
      → all (λ d. is_kept (d.id, d)) keep ≡ true
  all-kept i [] h = refl
  all-kept i (d ∷ keep) h = ground (arith, all-kept i keep, eq_refl d.id)

  replace_source-Sound :
      (i : Integration) (identities : List Identity) (keep : List ToolDefinition) (c : Catalog)
      → all (is_own i) keep ≡ true
      → keep_apart keep ≡ true
      → Sound c
      → Sound (replace_source t prompt_fields i identities keep c)
  replace_source-Sound i identities keep c own apart s = record {
    kept =
        all-put_tools is_kept keep _ (all-kept i keep own)
          (all-without is_kept (of_integration i.id) c.tools s.kept);
    apart =
        names_apart-put_tools keep _ apart (clear-others i.id keep c.tools (all-own i keep own))
          (names_apart-without (of_integration i.id) c.tools s.apart);
  }

  add_source-Sound :
      (source : ToolSource) (c : Catalog) → Sound c → Sound (add_source t prompt_fields source c).1
  unfolding add_source
  add_source-Sound source c s =
      let S = λ (r : List String × Catalog). Sound r.1 in
      Option-rule S source.integration
        (λ i e.
          if_rule S (is_empty i.id) (λ no_id. s)
            (λ has_id.
              replace_source-Sound i source.identities _ c
                (distinct_tools-all (is_own i) (check_tools t prompt_fields i source.tools).1
                  (check_tools-own i source.tools))
                (distinct_tools-apart (check_tools t prompt_fields i source.tools).1) s))
        (λ e. s)

  -- The catalogs that come of adding and removing sources.
  pub data Reached : Catalog → Type 0 where
    at_first : Reached new_catalog
    added :
        (source : ToolSource) {c : Catalog}
        → Reached c
        → Reached (add_source t prompt_fields source c).1
    removed : (id : String) {c : Catalog} → Reached c → Reached (remove_source id c)

  -- However sources are added and removed, every tool of the catalog keeps the contract and stands under
  -- its own id, and no two tools of one integration have the same name for the model.
  pub Reached-Sound : {c : Catalog} → Reached c → Sound c
  unfolding remove_source names_apart
  Reached-Sound at_first = record { kept = refl; apart = refl }
  Reached-Sound (added source r) = add_source-Sound source _ (Reached-Sound r)
  Reached-Sound (removed id {c = c} r) = record {
    kept = all-without is_kept (of_integration id) c.tools (Reached-Sound r).kept;
    apart = names_apart-without (of_integration id) c.tools (Reached-Sound r).apart;
  }
