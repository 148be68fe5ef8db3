-- ===== src/Outcome/Honesty.antt =====
-- When the program accepts that a request was carried out.
use mathlib.Core.List.{Memᴰ}
use open_kael.Prelude.{
  String, Bool, true, ◌&&◌, List, [], ◌∷◌, ◌++◌, ◌≡◌, ◌↔◌, ◌⊎◌, inl, inr, arith, any, has,
  Bool-cases,
}
use open_kael.Prelude.Text.{◌=ₛ◌, eq_iff}
use open_kael.Prelude.Search.{Passes, any-Passes, Passes-any}
use open_kael.Values.{Fields, text_at}
use open_kael.Outcome.{
  ActionRecord, Requirements, is_nil, is_change, is_attempt, succeeded, satisfied, changed_anything,
  judge_finish, done_feedback, finish_check,
}

-- What backs a claim: a record of an action that counts for the request and did its job.
abbrev pub is_evidence : Requirements → ActionRecord → Bool
is_evidence r rec = is_attempt r rec && rec.done

abbrev pub Evidence : Requirements → List ActionRecord → Type 0
Evidence r records = Passes (is_evidence r) records

-- The loop over the required names, turned round: a record whose name is among them.
any-succeeded-Passes :
    (names : List String) (records : List ActionRecord)
    → any (λ name. succeeded name records) names ≡ true
    → Passes (λ rec. has rec.name names && rec.done) records
any-succeeded-Passes [] records h = cc
any-succeeded-Passes (name ∷ names) records h = elim (Bool-cases (succeeded name records)) [
  | inl found ↦
      let (rec, m, e) = any-Passes (λ rec. rec.name =ₛ name && rec.done) records found in
      (rec, m, ground (arith, eq_iff rec.name name, eq_iff name rec.name))
  | inr missing ↦
      let (rec, m, e) = any-succeeded-Passes names records (ground arith) in (rec, m, ground arith)
]

succeeded_of_mem :
    (name : String) {rec : ActionRecord} (records : List ActionRecord)
    → Memᴰ rec records
    → (name =ₛ rec.name) ≡ true
    → rec.done ≡ true
    → succeeded name records ≡ true
succeeded_of_mem name {rec} records m e d =
    Passes-any (λ rec. rec.name =ₛ name && rec.done) records m
      (ground (arith, eq_iff name rec.name, eq_iff rec.name name))

Passes-any-succeeded :
    (names : List String) {rec : ActionRecord} (records : List ActionRecord)
    → Memᴰ rec records
    → has rec.name names ≡ true
    → rec.done ≡ true
    → any (λ name. succeeded name records) names ≡ true
Passes-any-succeeded [] records m h d = cc
Passes-any-succeeded (name ∷ names) {rec} records m h d = elim (Bool-cases (name =ₛ rec.name)) [
  | inl same ↦ ground (arith, succeeded_of_mem name records m same d)
  | inr other ↦ ground (arith, Passes-any-succeeded names records m (ground arith) d)
]

-- Requirements are satisfied exactly when a record backs the claim.
satisfied_iff :
    (r : Requirements) (records : List ActionRecord)
    → (satisfied r records ≡ true) ↔ Evidence r records
unfolding satisfied changed_anything
satisfied_iff r records = elim (Bool-cases (is_nil r.tools)) [
  | inl any_tool ↦
      rw any_tool (any-Passes is_change records, λ (rec, m, e). Passes-any is_change records m e)
  | inr named ↦ rw named (
    any-succeeded-Passes r.tools records,
    λ (rec, m, e). Passes-any-succeeded r.tools records m (ground arith) (ground arith),
  )
]

-- The tests of a finish on what it says, with what the requirements come to.
finish_of :
    (outcome : String) {s : Bool} {E : Type 0}
    → (s ≡ true) ↔ E
    → (feedback : String)
    → ((judge_finish outcome s feedback).0 ≡ true)
      ↔ ((outcome ≡ "need_details") ⊎ (outcome ≡ "cannot") ⊎ ((outcome ≡ "done") × E))
unfolding judge_finish
finish_of outcome (there, back) feedback = (
  λ h.
      ground (
        arith,
        eq_iff outcome "need_details",
        eq_iff outcome "cannot",
        eq_iff outcome "done",
        there,
      ),
  λ h.
      ground (
        arith,
        eq_iff outcome "need_details",
        eq_iff outcome "cannot",
        eq_iff outcome "done",
        back,
      ),
)

pub finish_check_iff :
    {F : Type 0} (args : Fields F) (r : Requirements) (records : List ActionRecord)
    → ((finish_check args r records).0 ≡ true) ↔ (
        (text_at "outcome" args ≡ "need_details")
        ⊎ (text_at "outcome" args ≡ "cannot")
        ⊎ ((text_at "outcome" args ≡ "done") × Evidence r records))
unfolding finish_check
finish_check_iff args r records =
    finish_of (text_at "outcome" args) (satisfied_iff r records) (done_feedback r records)

-- More records never undo what satisfied the requirements.
pub satisfied-append :
    (r : Requirements) (records more : List ActionRecord)
    → satisfied r records ≡ true
    → satisfied r (records ++ more) ≡ true
satisfied-append r records more h =
    let (rec, m, e) = (satisfied_iff r records).0 h in
    (satisfied_iff r (records ++ more)).1 (rec, mem_left m, e)
  where
    mem_left : {rec : ActionRecord} {xs : List ActionRecord} → Memᴰ rec xs → Memᴰ rec (xs ++ more)
    mem_left (Memᴰ.head e) = Memᴰ.head e
    mem_left (Memᴰ.tail m) = Memᴰ.tail (mem_left m)
