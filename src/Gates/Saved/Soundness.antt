-- ===== src/Gates/Saved/Soundness.antt =====
-- domain/prerequisite.go: what holds of the prerequisites that are saved.
use open_kael.Prelude.{
  ok_passes, none_saved, good, OkIf, String, Bool, true, false, not, ◌&&◌, none, some, List, [],
  ◌∷◌, ◌≡◌, refl, arith, ltb, length, lookup, has, all, if_rule, Option-rule,
}
use open_kael.Prelude.Text.{◌=ₛ◌, is_empty, trim_space}
use open_kael.Tools.{ToolDefinition}
use open_kael.Gates.{Texts}
use open_kael.Gates.Prerequisites.{Prerequisite}
use open_kael.Gates.Saved.{
  map_ok, bad, ok, Result, max_prerequisites, in_both, normalize_same, normalize_found,
  normalize_one, key_of, normalize_from, normalize_prerequisites, short_text,
}

-- A prerequisite that can be kept: both abilities are granted and two, the first only looks things
-- up, and both have every input that must be the same.
unfoldable pub is_sound_for : Prerequisite → (before first : ToolDefinition) → Bool
is_sound_for r before first =
    not (r.before =ₛ r.first) && first.read_only && all (in_both before first) r.same

unfoldable pub is_sound : List (String × ToolDefinition) → Prerequisite → Bool
is_sound granted r = elim (lookup r.before granted) [
  | none ↦ false
  | some before ↦ elim (lookup r.first granted) [
    | none ↦ false
    | some first ↦ is_sound_for r before first
  ]
]

module _ {F : Type 0} (t : Texts F) where
  normalize_same-OkIf :
      (before first : ToolDefinition) (same : List String)
      → OkIf (all (in_both before first)) (normalize_same t before first same)
  unfolding normalize_same
  normalize_same-OkIf before first [] = good refl
  normalize_same-OkIf before first (s ∷ same) =
      if_rule (OkIf (all (in_both before first))) (is_empty (trim_space s))
        (λ blank. normalize_same-OkIf before first same)
        (λ named.
          if_rule (OkIf (all (in_both before first))) (in_both before first (trim_space s))
            (λ both. more both (normalize_same-OkIf before first same)) (λ not_both. none_saved))
    where
      more :
          {rest : Result (List String)}
          → in_both before first (trim_space s) ≡ true
          → OkIf (all (in_both before first)) rest
          → OkIf (all (in_both before first)) (map_ok (λ kept. trim_space s ∷ kept) rest)
      more both (good e) = good (ground arith)
      more both none_saved = none_saved

  normalize_found-OkIf :
      (granted : List (String × ToolDefinition)) (p : Prerequisite) (before first : ToolDefinition)
      → lookup p.before granted ≡ some before
      → lookup p.first granted ≡ some first
      → OkIf (is_sound granted) (normalize_found t p before first)
  unfolding normalize_found is_sound is_sound_for
  normalize_found-OkIf granted p before first hb hf =
      if_rule (OkIf (is_sound granted)) (p.before =ₛ p.first) (λ itself. none_saved)
        (λ two.
          if_rule (OkIf (is_sound granted)) (not first.read_only) (λ changes. none_saved)
            (λ looks. kept two looks (normalize_same-OkIf before first p.same)))
    where
      sound :
          (same : List String)
          → (p.before =ₛ p.first) ≡ false
          → not first.read_only ≡ false
          → all (in_both before first) same ≡ true
          → is_sound granted (record p { same = same; text = short_text p.text }) ≡ true
      sound same two looks e = rw (hb, hf, is_sound) (ground arith)

      kept :
          {same : Result (List String)}
          → (p.before =ₛ p.first) ≡ false
          → not first.read_only ≡ false
          → OkIf (all (in_both before first)) same
          → OkIf
              (is_sound granted)
              (map_ok (λ s. record p { same = s; text = short_text p.text }) same)
      kept two looks (good {a = s} e) = good (sound s two looks e)
      kept two looks none_saved = none_saved

  normalize_one-OkIf :
      (granted : List (String × ToolDefinition)) (p : Prerequisite)
      → OkIf (is_sound granted) (normalize_one t granted p)
  unfolding normalize_one
  normalize_one-OkIf granted p =
      Option-rule (OkIf (is_sound granted)) (lookup p.before granted)
        (λ before hb.
          Option-rule (OkIf (is_sound granted)) (lookup p.first granted)
            (λ first hf. normalize_found-OkIf granted p before first hb hf)
            (λ none_first. none_saved))
        (λ none_before. none_saved)

  normalize_from-OkIf :
      (granted : List (String × ToolDefinition)) (seen : List String) (ps : List Prerequisite)
      → OkIf (all (is_sound granted)) (normalize_from t granted seen ps)
  unfolding normalize_from
  normalize_from-OkIf granted seen [] = good refl
  normalize_from-OkIf granted seen (p ∷ ps) =
      after (normalize_one-OkIf granted p) (normalize_from-OkIf granted seen ps)
        (λ q. normalize_from-OkIf granted (key_of q ∷ seen) ps)
    where
      one_more :
          (q : Prerequisite) {rest : Result (List Prerequisite)}
          → is_sound granted q ≡ true
          → OkIf (all (is_sound granted)) rest
          → OkIf (all (is_sound granted)) (map_ok (λ out. q ∷ out) rest)
      one_more q e (good h) = good (ground arith)
      one_more q e none_saved = none_saved

      branch :
          (q : Prerequisite) (repeated : Bool) {skip more : Result (List Prerequisite)}
          → OkIf (all (is_sound granted)) skip
          → OkIf (all (is_sound granted)) more
          → OkIf (all (is_sound granted)) (elim repeated [ true ↦ skip | false ↦ more ])
      branch q true h k = h
      branch q false h k = k

      after :
          {one : Result Prerequisite}
          → OkIf (is_sound granted) one
          → OkIf (all (is_sound granted)) (normalize_from t granted seen ps)
          → ((q : Prerequisite)
              → OkIf (all (is_sound granted)) (normalize_from t granted (key_of q ∷ seen) ps))
          → OkIf (all (is_sound granted)) (elim one [
            | bad e ↦ bad e
            | ok q ↦ elim (has (key_of q) seen) [
              | true ↦ normalize_from t granted seen ps
              | false ↦ map_ok (λ out. q ∷ out) (normalize_from t granted (key_of q ∷ seen) ps)
            ]
          ])
      after none_saved skip more = none_saved
      after (good {a = q} e) skip more = branch q (has (key_of q) seen) skip (one_more q e (more q))

  -- Every prerequisite that is saved can be kept: both its abilities are granted and two, the one
  -- that comes first only looks things up, and both have every input that must be the same.
  pub normalize_prerequisites-is_sound :
      (ps : List Prerequisite) (granted : List (String × ToolDefinition)) (out : List Prerequisite)
      → normalize_prerequisites t ps granted ≡ ok out
      → all (is_sound granted) out ≡ true
  unfolding normalize_prerequisites
  normalize_prerequisites-is_sound ps granted out h =
      ok_passes
        (if_rule (OkIf (all (is_sound granted))) (ltb max_prerequisites (length ps))
          (λ many. none_saved) (λ few. normalize_from-OkIf granted [] ps))
        h
