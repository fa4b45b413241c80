-- ===== src/Runner/Plan/ExitCode.antt =====
-- The exit code of the runner, conformance/runner/src/plan.rs.
use wasi_webrtc_datachannels.Base.{
  ◌≡◌, refl, ◌∙◌, true, List, [], ◌∷◌, ◌++◌, map, String, any, ◌==◌, ==_refl, string_eq, arith,
  if_cases, All,
}
use wasi_webrtc_datachannels.Base.Dict.{insert, IsMap, insert-IsMap}
use wasi_webrtc_datachannels.Runner.Manifest.{Manifest}
use wasi_webrtc_datachannels.Runner.Plan.{
  Row, Cell, Key, key_Eq, row_key, Matrix, Raw, TestEntry, AdapterReport, ByEnv, environments_of,
  classify_row, classify_environments, classify_manifests, classify, has_failures, failures,
}
use wasi_webrtc_datachannels.Runner.Plan.Failures.{
  any-imp, any-append, All-map, nonempty, covered, IsCovered, has_failures-nonempty,
}

-- The ids of the tests are among those of the matrix.
abbrev Registered : List String → List TestEntry → Type 0
Registered tests ts = All (λ t. any (λ id. id == t.id) tests ≡ true) ts

insert-All :
    (P : Key → Type 0) (k : Key) (c : Cell) (cells : List (Key × Cell))
    → P k
    → All (λ e. P e.0) cells
    → All (λ e. P e.0) (insert k c cells)
unfolding insert
insert-All P k c [] h a = (h, tt)
insert-All P k c ((j, d) ∷ cells) h a =
    if_cases (All (λ e. P e.0)) (j == k) _ _ (λ e. (h, a.1))
      (λ e. (a.0, insert-All P k c cells h a.1))

covered-here :
    (rows : List Row) (r : Row) (tests : List String) (t : String)
    → any (λ id. id == t) tests ≡ true
    → covered (rows ++ r ∷ []) tests (row_key r t) ≡ true
covered-here rows r tests t h =
    let here : any (λ u. row_key r t == row_key r u) tests ≡ true =
      any-imp _ _ tests
        (λ u e. let same = (string_eq.eq_iff u t).0 e in rw same (==_refl (row_key r t))) h in
    any-append (λ q. any (λ u. row_key r t == row_key q u) tests) rows (r ∷ [])
    ∙ ground (arith, here)

covered-more :
    (rows : List Row) (r : Row) (tests : List String) (k : Key)
    → covered rows tests k ≡ true
    → covered (rows ++ r ∷ []) tests k ≡ true
covered-more rows r tests k h =
    any-append (λ q. any (λ u. k == row_key q u) tests) rows (r ∷ []) ∙ ground (arith, h)

-- Cells whose keys are covered, one for each key.
abbrev Good : List Row → List String → List (Key × Cell) → Type 0
Good rows tests cells = IsMap cells × All (λ e. covered rows tests e.0 ≡ true) cells

classify_row-Good :
    (m : Manifest) (rows : List Row) (r : Row) (raw : List (String × Raw)) (tests : List String)
    (ts : List TestEntry) (cells : List (Key × Cell))
    → Registered tests ts
    → Good (rows ++ r ∷ []) tests cells
    → Good (rows ++ r ∷ []) tests (classify_row m r raw ts cells)
unfolding classify_row
classify_row-Good m rows r raw tests [] cells known g = g
classify_row-Good m rows r raw tests (t ∷ ts) cells known g =
    classify_row-Good m rows r raw tests ts _ known.1 (
      insert-IsMap (row_key r t.id) _ cells g.0,
      insert-All (λ k. covered (rows ++ r ∷ []) tests k ≡ true) (row_key r t.id) _ cells
          (covered-here rows r tests t.id known.0) g.1,
    )

classify_environments-Good :
    (m : Manifest) (ts : List TestEntry) (es : ByEnv) (x : Matrix)
    → Registered x.tests ts
    → IsCovered x
    → IsCovered (classify_environments m ts es x)
      × Registered (classify_environments m ts es x).tests ts
unfolding classify_environments
classify_environments-Good m ts [] x known v = (v, known)
classify_environments-Good m ts ((environment, raw) ∷ es) x known v =
    let row : Row = record { target = m.id; environment = environment } in
    let g =
      classify_row-Good m x.rows row raw x.tests ts x.cells known
        (v.is_map, All-map x.cells (λ e. covered-more x.rows row x.tests e.0) v.keys) in
    classify_environments-Good m ts es _ known (record { is_map = g.0; keys = g.1 })

classify_manifests-Good :
    (ts : List TestEntry) (reports : List AdapterReport) (ms : List Manifest) (x : Matrix)
    → Registered x.tests ts
    → IsCovered x
    → IsCovered (classify_manifests ts reports ms x)
unfolding classify_manifests
classify_manifests-Good ts reports [] x known v = v
classify_manifests-Good ts reports (m ∷ ms) x known v =
    let (v', known') = classify_environments-Good m ts (environments_of m reports) x known v in
    classify_manifests-Good ts reports ms _ known' v'

registered : (ts : List TestEntry) → Registered (map (λ t. t.id) ts) ts
registered [] = tt
registered (t ∷ ts) =
    (rw (==_refl t.id) refl, All-map ts (λ u h. ground (arith, h)) (registered ts))

-- The runner reports failure exactly if it lists a failing test: for every registry, manifests and
-- reports, `has_failures` of the classified matrix holds just when `failures` is not empty.
pub classify-has_failures :
    (registry : List TestEntry) (manifests : List Manifest) (reports : List AdapterReport)
    → let x = classify registry manifests reports in has_failures x ≡ nonempty (failures x)
unfolding classify
classify-has_failures registry manifests reports = has_failures-nonempty _ (
    classify_manifests-Good registry reports manifests _ (registered registry)
      (record { is_map = tt; keys = tt }))
