-- ===== src/Runner/Plan/Completeness.antt =====
-- The matrix of conformance/runner/src/plan.rs has no holes.
use wasi_webrtc_datachannels.Base.{
  ◌≡◌, refl, ◌∙◌, true, List, [], ◌∷◌, ◌++◌, String, any, ◌==◌, ==_refl, string_eq, arith, All,
}
use wasi_webrtc_datachannels.Base.Dict.{insert, contains_key, contains_key-insert}
use wasi_webrtc_datachannels.Runner.Manifest.{Manifest}
use wasi_webrtc_datachannels.Runner.Plan.{
  Row, Cell, Key, key_Eq, row_key, Matrix, Raw, TestEntry, AdapterReport, ByEnv, planned,
  environments_of, group_reports, classify_row, classify_environments, classify_manifests, classify,
}
use wasi_webrtc_datachannels.Runner.Plan.Failures.{All-map, any-append}

abbrev pub HasCell : List (Key × Cell) → Row → TestEntry → Type 0
HasCell cells r t = contains_key (row_key r t.id) cells ≡ true

-- An insertion takes no cell away.
insert-keeps :
    (j k : Key) (c : Cell) (cells : List (Key × Cell))
    → contains_key k cells ≡ true
    → contains_key k (insert j c cells) ≡ true
insert-keeps j k c cells h = contains_key-insert j k c cells ∙ ground (arith, h)

classify_row-keeps :
    (m : Manifest) (r : Row) (raw : List (String × Raw)) (ts : List TestEntry)
    (cells : List (Key × Cell)) (k : Key)
    → contains_key k cells ≡ true
    → contains_key k (classify_row m r raw ts cells) ≡ true
unfolding classify_row
classify_row-keeps m r raw [] cells k h = h
classify_row-keeps m r raw (t ∷ ts) cells k h =
    classify_row-keeps m r raw ts _ k (insert-keeps (row_key r t.id) k _ cells h)

classify_row-HasCell :
    (m : Manifest) (r : Row) (raw : List (String × Raw)) (ts : List TestEntry)
    (cells : List (Key × Cell))
    → All (HasCell (classify_row m r raw ts cells) r) ts
unfolding classify_row
classify_row-HasCell m r raw [] cells = tt
classify_row-HasCell m r raw (t ∷ ts) cells = (
  classify_row-keeps m r raw ts _ (row_key r t.id) (
      contains_key-insert (row_key r t.id) (row_key r t.id) _ cells
      ∙ rw (==_refl (row_key r t.id)) refl),
  classify_row-HasCell m r raw ts _,
)

abbrev pub IsComplete : List TestEntry → Matrix → Type 0
IsComplete ts x = All (λ r. All (HasCell x.cells r) ts) x.rows

All-append : (P : Row → Type 0) (rs : List Row) (r : Row) → All P rs → P r → All P (rs ++ r ∷ [])
All-append P [] r a h = (h, tt)
All-append P (q ∷ rs) r a h = (a.0, All-append P rs r a.1 h)

classify_environments-IsComplete :
    (m : Manifest) (ts : List TestEntry) (es : ByEnv) (x : Matrix)
    → IsComplete ts x
    → IsComplete ts (classify_environments m ts es x)
unfolding classify_environments
classify_environments-IsComplete m ts [] x c = c
classify_environments-IsComplete m ts ((environment, raw) ∷ es) x c =
    let row : Row = record { target = m.id; environment = environment } in
    classify_environments-IsComplete m ts es _ (
      All-append _ x.rows row
        (All-map x.rows
          (λ r a. All-map ts (λ t h. classify_row-keeps m row raw ts x.cells (row_key r t.id) h) a)
          c)
        (classify_row-HasCell m row raw ts x.cells))

classify_manifests-IsComplete :
    (ts : List TestEntry) (reports : List AdapterReport) (ms : List Manifest) (x : Matrix)
    → IsComplete ts x
    → IsComplete ts (classify_manifests ts reports ms x)
unfolding classify_manifests
classify_manifests-IsComplete ts reports [] x c = c
classify_manifests-IsComplete ts reports (m ∷ ms) x c =
    classify_manifests-IsComplete ts reports ms _
      (classify_environments-IsComplete m ts (environments_of m reports) x c)

-- A row of the target.
abbrev pub HasRow : List Row → Manifest → Type 0
HasRow rows m = any (λ r. r.target == m.id) rows ≡ true

rows-kept :
    (m q : Manifest) (ts : List TestEntry) (es : ByEnv) (x : Matrix)
    → HasRow x.rows q
    → HasRow (classify_environments m ts es x).rows q
unfolding classify_environments
rows-kept m q ts [] x h = h
rows-kept m q ts ((environment, raw) ∷ es) x h =
    rows-kept m q ts es _ (any-append (λ r. r.target == q.id) x.rows _ ∙ ground (arith, h))

planned-row :
    (m : Manifest) (ts : List TestEntry) (es : ByEnv) (x : Matrix)
    → HasRow (classify_environments m ts (planned es) x).rows m
unfolding classify_environments
planned-row m ts [] x = any-append (λ r. r.target == m.id) x.rows _ ∙ ground (arith, ==_refl m.id)
planned-row m ts ((environment, raw) ∷ es) x =
    rows-kept m m ts es _
      (any-append (λ r. r.target == m.id) x.rows _ ∙ ground (arith, ==_refl m.id))

rows_kept_by_all :
    (ts : List TestEntry) (reports : List AdapterReport) (ms : List Manifest) (q : Manifest)
    (x : Matrix)
    → HasRow x.rows q
    → HasRow (classify_manifests ts reports ms x).rows q
unfolding classify_manifests
rows_kept_by_all ts reports [] q x h = h
rows_kept_by_all ts reports (m ∷ ms) q x h =
    rows_kept_by_all ts reports ms q _ (rows-kept m q ts (environments_of m reports) x h)

classify_manifests-HasRow :
    (ts : List TestEntry) (reports : List AdapterReport) (ms : List Manifest) (x : Matrix)
    → All (HasRow (classify_manifests ts reports ms x).rows) ms
unfolding classify_manifests environments_of
classify_manifests-HasRow ts reports [] x = tt
classify_manifests-HasRow ts reports (m ∷ ms) x = (
  rows_kept_by_all ts reports ms m _ (planned-row m ts (group_reports _ []) x),
  classify_manifests-HasRow ts reports ms _,
)

-- The matrix has no holes: every declared target has a row, whether an adapter reported it or not,
-- and every row has a cell for every registered test.
pub classify-IsComplete :
    (registry : List TestEntry) (manifests : List Manifest) (reports : List AdapterReport)
    → let x = classify registry manifests reports in
      All (HasRow x.rows) manifests × IsComplete registry x
unfolding classify
classify-IsComplete registry manifests reports = (
  classify_manifests-HasRow registry reports manifests _,
  classify_manifests-IsComplete registry reports manifests _ tt,
)
