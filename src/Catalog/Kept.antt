-- ===== src/Catalog/Kept.antt =====
-- domain/catalog.go: what holds of the tools of a catalog that sources were added to and removed from.
use text.Mathlib.TextPositions.{eq_refl}
use open_kael.Catalog.{without_those, put_tools, put, of_integration, drop_from}
use open_kael.Tools.{model_name, ToolDefinition}
use open_kael.Prelude.Text.{eq_iff, ◌=ₛ◌}
use open_kael.Prelude.{
  ◌≡◌, ◌∷◌, ◌||◌, true, sym, refl, not, has, false, arith, any, all, [], String, List, Bool, ◌&&◌,
  if_rule,
}

-- Two tools that a model could not tell apart.
abbrev pub clash : ToolDefinition → ToolDefinition → Bool
clash e d = d.integration_id =ₛ e.integration_id && model_name d =ₛ model_name e

abbrev pub clashes_in : ToolDefinition → List (String × ToolDefinition) → Bool
clashes_in e m = any (λ (k, d). clash e d) m

unfoldable pub names_apart : List (String × ToolDefinition) → Bool
names_apart [] = true
names_apart ((k, d) ∷ m) = not (clashes_in d m) && names_apart m

unfoldable pub keep_apart : List ToolDefinition → Bool
keep_apart [] = true
keep_apart (d ∷ keep) = all (λ e. not (clash e d)) keep && keep_apart keep

module _ {A : Type 0} where
  pub all-without :
      (q p : String × A → Bool) (m : List (String × A))
      → all q m ≡ true
      → all q (without_those p m) ≡ true
  unfolding without_those
  all-without q p [] h = refl
  all-without q p (x ∷ m) h = ground (arith, all-without q p m)

  pub any-without :
      (q p : String × A → Bool) (m : List (String × A))
      → any q m ≡ false
      → any q (without_those p m) ≡ false
  unfolding without_those
  any-without q p [] h = refl
  any-without q p (x ∷ m) h = ground (arith, any-without q p m)

pub names_apart-without :
    (p : String × ToolDefinition → Bool) (m : List (String × ToolDefinition))
    → names_apart m ≡ true
    → names_apart (without_those p m) ≡ true
unfolding without_those names_apart
names_apart-without p [] h = refl
names_apart-without p ((k, d) ∷ m) h =
    ground (arith, names_apart-without p m, any-without (λ (j, e). clash d e) p m)

-- A tool of an integration clashes with none of the others'.
clashes_in-others :
    (id : String) (e : ToolDefinition) (m : List (String × ToolDefinition))
    → (e.integration_id =ₛ id) ≡ true
    → clashes_in e (without_those (of_integration id) m) ≡ false
unfolding without_those
clashes_in-others id e [] h = refl
clashes_in-others id e ((k, d) ∷ m) h =
    let same = (eq_iff e.integration_id id).0 h in
    rw (sym same) (ground (arith, clashes_in-others id e m h, same))

-- None of some tools clashes with those of a map.
abbrev clear : List ToolDefinition → List (String × ToolDefinition) → Bool
clear keep m = all (λ e. not (clashes_in e m)) keep

pub clear-others :
    (id : String) (keep : List ToolDefinition) (m : List (String × ToolDefinition))
    → all (λ d. d.integration_id =ₛ id) keep ≡ true
    → clear keep (without_those (of_integration id) m) ≡ true
clear-others id [] m h = refl
clear-others id (e ∷ keep) m h = ground (arith, clear-others id keep m, clashes_in-others id e m)

clear-put :
    (d : ToolDefinition) (keep : List ToolDefinition) (m : List (String × ToolDefinition))
    → all (λ e. not (clash e d)) keep ≡ true
    → clear keep m ≡ true
    → clear keep (put d.id d m) ≡ true
clear-put d [] m a c = refl
clear-put d (e ∷ keep) m a c =
    ground (arith, clear-put d keep m, any-without (λ (k, f). clash e f) (λ (j, b). j =ₛ d.id) m)

pub names_apart-put_tools :
    (keep : List ToolDefinition) (m : List (String × ToolDefinition))
    → keep_apart keep ≡ true
    → clear keep m ≡ true
    → names_apart m ≡ true
    → names_apart (put_tools keep m) ≡ true
unfolding put_tools names_apart keep_apart
names_apart-put_tools [] m a c h = h
names_apart-put_tools (d ∷ keep) m a c h =
    names_apart-put_tools keep (put d.id d m) (ground arith)
      (clear-put d keep m (ground arith) (ground arith))
      (ground (
        arith,
        names_apart-without (λ (j, b). j =ₛ d.id) m,
        any-without (λ (k, e). clash d e) (λ (j, b). j =ₛ d.id) m,
      ))

pub all-put_tools :
    (q : String × ToolDefinition → Bool) (keep : List ToolDefinition)
    (m : List (String × ToolDefinition))
    → all (λ d. q (d.id, d)) keep ≡ true
    → all q m ≡ true
    → all q (put_tools keep m) ≡ true
unfolding put_tools
all-put_tools q [] m k h = h
all-put_tools q (d ∷ keep) m k h =
    all-put_tools q keep (put d.id d m) (ground arith)
      (ground (arith, all-without q (λ (j, b). j =ₛ d.id) m))

-- The tools that are kept of those with distinct names.
pub drop_from-all :
    (q : ToolDefinition → Bool) (ids names : List String) (tools : List ToolDefinition)
    → all q tools ≡ true
    → all q (drop_from ids names tools) ≡ true
unfolding drop_from
drop_from-all q ids names [] h = refl
drop_from-all q ids names (d ∷ tools) h =
    if_rule (λ ds. all q ds ≡ true) (has d.id ids || has (model_name d) names)
      (λ had. drop_from-all q ids names tools (ground arith))
      (λ new. ground (arith, drop_from-all q (d.id ∷ ids) (model_name d ∷ names) tools))

drop_from-unnamed :
    (d : ToolDefinition) (ids names : List String) (tools : List ToolDefinition)
    → has (model_name d) names ≡ true
    → all (λ e. not (clash e d)) (drop_from ids names tools) ≡ true
unfolding drop_from
drop_from-unnamed d ids names [] h = refl
drop_from-unnamed d ids names (e ∷ tools) h =
    if_rule (λ ds. all (λ e. not (clash e d)) ds ≡ true) (has e.id ids || has (model_name e) names)
      (λ had. drop_from-unnamed d ids names tools h)
      (λ new. ground (
        arith,
        eq_iff (model_name d) (model_name e),
        drop_from-unnamed d (e.id ∷ ids) (model_name e ∷ names) tools,
      ))

pub drop_from-apart :
    (ids names : List String) (tools : List ToolDefinition)
    → keep_apart (drop_from ids names tools) ≡ true
unfolding drop_from keep_apart
drop_from-apart ids names [] = refl
drop_from-apart ids names (d ∷ tools) =
    if_rule (λ ds. keep_apart ds ≡ true) (has d.id ids || has (model_name d) names)
      (λ had. drop_from-apart ids names tools)
      (λ new. ground (
        arith,
        eq_refl (model_name d),
        drop_from-apart (d.id ∷ ids) (model_name d ∷ names) tools,
        drop_from-unnamed d (d.id ∷ ids) (model_name d ∷ names) tools,
      ))
