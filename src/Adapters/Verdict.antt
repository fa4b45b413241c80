-- ===== src/Adapters/Verdict.antt =====
-- What the runner, conformance/runner, makes of the report of an adapter, conformance/adapters.
use wasi_webrtc_datachannels.Base.{
  ◌≡◌, refl, ap, sym, ◌∙◌, Bool, true, false, Bool-cases, inl, inr, ◌&&◌, ◌||◌, Option, none, some,
  String, List, [], ◌∷◌, any, map, filter, ◌==◌, ==_refl, string_eq, if◌then◌else◌,
}
use wasi_webrtc_datachannels.Base.Dict.{lookup, insert, lookup-insert}
use wasi_webrtc_datachannels.Runner.Manifest.{
  Manifest, is_unsupported, expected_fail_for, max_by_key,
}
use wasi_webrtc_datachannels.Runner.Plan.{
  is_failure, RawResult, AdapterReport, TestEntry, Cell, Row, Key, key_Eq, row_key, Raw,
  classify_raw, classify_tagged, classify_one, record_results, group_reports, insert_ordered,
  environments_of, classify_row, classify_environments, classify_manifests, classify, has_failures,
}
use wasi_webrtc_datachannels.Adapters.Outcome.{
  TestOutcome, outcome_to_raw, Attempted, returned, failed, elapsed, attempt_outcome, run_test,
  selected, run_corpus,
}
use wasi_webrtc_datachannels.Adapters.Outcome.Folding.{is_fail}

-- A manifest that declares nothing of its target.
abbrev pub plain : String → Manifest
plain id = record { id = id; unsupported = []; expected_fail = [] }

-- A list of cells in which each cell is what `f` says of its key.
abbrev Follows : (Key → Cell) → List (Key × Cell) → Type 0
Follows f [] = Unit
Follows f ((k, c) ∷ cs) = (c ≡ f k) × Follows f cs

abbrev bad : Key × Cell → Bool
bad e = is_failure e.1.status

insert-Follows :
    (f : Key → Cell) (k : Key) (cs : List (Key × Cell))
    → Follows f cs
    → Follows f (insert k (f k) cs)
unfolding insert
insert-Follows f k [] h = (refl, tt)
insert-Follows f k ((j, c) ∷ cs) h = elim (Bool-cases (j == k)) [
  | inl e ↦ rw e (refl, h.1)
  | inr e ↦ rw e (h.0, insert-Follows f k cs h.1)
]

or_dup : (a b : Bool) → (a || b) ≡ (a || (a || b))
or_dup true b = refl
or_dup false b = refl

or_swap : (a b c : Bool) → (a || (b || c)) ≡ (b || (a || c))
or_swap true true c = refl
or_swap true false c = refl
or_swap false b c = refl

or_false : (a : Bool) → (a || false) ≡ a
or_false true = refl
or_false false = refl

or_swap_assoc : (a b c : Bool) → ((a || b) || c) ≡ (b || (a || c))
or_swap_assoc true true c = refl
or_swap_assoc true false c = refl
or_swap_assoc false b c = refl

any-insert :
    (f : Key → Cell) (k : Key) (cs : List (Key × Cell))
    → Follows f cs
    → any bad (insert k (f k) cs) ≡ (is_failure (f k).status || any bad cs)
unfolding insert
any-insert f k [] h = refl
any-insert f k ((j, c) ∷ cs) h = elim (Bool-cases (j == k)) [
  | inl e ↦
      let same : is_failure c.status ≡ is_failure (f k).status =
        ap (λ (x : Cell). is_failure x.status) (h.0 ∙ ap f ((key_Eq.eq_iff j k).0 e)) in
      rw e (rw same (or_dup (is_failure (f k).status) (any bad cs)))
  | inr e ↦ rw e (
      rw (any-insert f k cs h.1)
        (or_swap (is_failure c.status) (is_failure (f k).status) (any bad cs)))
]

if_same {ℓ} : {A : Type ℓ} (b : Bool) (x : A) → (if b then x else x) ≡ x
if_same true x = refl
if_same false x = refl

-- Without a policy, a cell is what was reported.
abbrev cell : List (String × Raw) → Key → Cell
cell raw k = classify_raw none (lookup k.2 raw)

classify-plain :
    (id environment test : String) (tags : List String) (r : Option Raw)
    → classify_one (plain id) environment test tags r ≡ classify_raw none r
unfolding classify_one classify_tagged is_unsupported expected_fail_for max_by_key
classify-plain id environment test tags r = refl

any-row :
    (id : String) (row : Row) (raw : List (String × Raw)) (es : List TestEntry)
    (cs : List (Key × Cell))
    → Follows (cell raw) cs
    → any bad (classify_row (plain id) row raw es cs)
      ≡ (any bad cs || any (λ e. is_failure (classify_raw none (lookup e.id raw)).status) es)
unfolding classify_row
any-row id row raw [] cs h = sym (or_false (any bad cs))
any-row id row raw (e ∷ es) cs h =
    let k = row_key row e.id in
    rw (classify-plain id row.environment e.id e.tags (lookup e.id raw)) (
      any-row id row raw es (insert k (cell raw k) cs) (insert-Follows (cell raw) k cs h)
      ∙ rw (any-insert (cell raw) k cs h) (
          or_swap_assoc (is_failure (cell raw k).status) (any bad cs)
            (any (λ e. is_failure (classify_raw none (lookup e.id raw)).status) es)))

raw-is_fail :
    (t : String) (o : TestOutcome)
    → is_failure
        (classify_raw none (some ((outcome_to_raw t o).status, (outcome_to_raw t o).detail))).status
      ≡ is_fail o
unfolding outcome_to_raw classify_raw is_failure
raw-is_fail t TestOutcome.pass = refl
raw-is_fail t (TestOutcome.fail d) = refl
raw-is_fail t (TestOutcome.skipped r) = refl

id_of : (t : String) (o : TestOutcome) → (outcome_to_raw t o).test_id ≡ t
unfolding outcome_to_raw
id_of t TestOutcome.pass = refl
id_of t (TestOutcome.fail d) = refl
id_of t (TestOutcome.skipped r) = refl

-- An attempt that is a failure: its folded outcome fails, or it gave none.
abbrev ended_badly : Attempted → Bool
ended_badly (returned o) = is_fail o
ended_badly (failed e) = true
ended_badly elapsed = true

outcome-ended : (a : Attempted) → is_fail (attempt_outcome a) ≡ ended_badly a
unfolding attempt_outcome
outcome-ended (returned o) = refl
outcome-ended (failed e) = refl
outcome-ended elapsed = refl

module _ (attempts : String → Attempted) where
  abbrev run : String → RawResult
  run t = run_test t (attempts t)

  abbrev pub fails : String → Bool
  fails t = ended_badly (attempts t)

  value : String → Raw
  value t = ((run t).status, (run t).detail)

  run-id : (t : String) → (run t).test_id ≡ t
  unfolding run_test
  run-id t = id_of t (attempt_outcome (attempts t))

  lookup-results :
      (id : String) (ts : List String) (env : List (String × Raw))
      → lookup id (record_results (map run ts) env)
        ≡ (if any (λ t. t == id) ts then some (value id) else lookup id env)
  unfolding record_results value
  lookup-results id [] env = refl
  lookup-results id (t ∷ ts) env =
      lookup-results id ts (insert (run t).test_id (value t) env)
      ∙ rw (run-id t) (
          rw (lookup-insert t id (value t) env) (pick (t == id) (λ e. (string_eq.eq_iff t id).0 e)))
    where
      pick :
          (b : Bool)
          → (b ≡ true → t ≡ id)
          → (if any (λ u. u == id) ts
              then some (value id)
              else if b
              then some (value t)
              else lookup id env)
            ≡ (if b || any (λ u. u == id) ts then some (value id) else lookup id env)
      pick true e = rw (ap value (e refl)) (if_same (any (λ u. u == id) ts) (some (value id)))
      pick false e = refl

  -- The tests that the adapter ran.
  abbrev pub ran : List String → List String → String → Bool
  ran ts only id = any (λ t. t == id) (filter (selected only) ts)

  failure-lookup :
      (id : String) (ts only : List String)
      → is_failure
          (classify_raw none (lookup id (record_results (run_corpus ts only run) []))).status
        ≡ (ran ts only id && fails id)
  unfolding run_corpus value run_test lookup classify_raw is_failure
  failure-lookup id ts only =
      rw (lookup-results id (filter (selected only) ts) []) (judged (ran ts only id))
    where
      judged :
          (b : Bool)
          → is_failure (classify_raw none (if b then some (value id) else lookup id [])).status
            ≡ (b && fails id)
      judged true = raw-is_fail id (attempt_outcome (attempts id)) ∙ outcome-ended (attempts id)
      judged false = refl

  any-eq :
      (p q : TestEntry → Bool) (es : List TestEntry)
      → ((e : TestEntry) → p e ≡ q e)
      → any p es ≡ any q es
  any-eq p q [] h = refl
  any-eq p q (e ∷ es) h = rw (h e) (ap (λ b. q e || b) (any-eq p q es h))

  abbrev pub report : String → String → List String → List String → AdapterReport
  report target environment ts only = record {
    target = target;
    environment = environment;
    results = run_corpus ts only run;
  }

  environments-report :
      (target environment : String) (ts only : List String)
      → environments_of (plain target) (report target environment ts only ∷ [])
        ≡ (environment, record_results (run_corpus ts only run) []) ∷ []
  unfolding environments_of group_reports insert_ordered lookup
  environments-report target environment ts only = rw (==_refl target) refl

  -- From the attempts of an adapter to the exit code of the runner: for a target whose manifest
  -- declares nothing, the run fails exactly if some registered test that the adapter ran ended in a
  -- failure: a failing instance, an error of the adapter, or the timeout. Tests that were not run, or
  -- were skipped, do not fail it.
  pub run_verdict :
      (registry : List TestEntry) (target environment : String) (ts only : List String)
      → has_failures
          (classify registry (plain target ∷ []) (report target environment ts only ∷ []))
        ≡ any (λ e. ran ts only e.id && fails e.id) registry
  unfolding has_failures classify classify_manifests classify_environments
  run_verdict registry target environment ts only =
      rw (environments-report target environment ts only) (
        any-row target (record { target = target; environment = environment })
          (record_results (run_corpus ts only run) []) registry [] tt
        ∙ any-eq _ (λ e. ran ts only e.id && fails e.id) registry
            (λ e. failure-lookup e.id ts only))
