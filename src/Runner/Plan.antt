-- ===== src/Runner/Plan.antt =====
-- Planning and classification, conformance/runner/src/plan.rs, with the registry and the results of
-- registry.rs and results.rs. A `BTreeMap` that the code runs over is kept in the order of its keys.
pub mod Classification
pub mod Failures
pub mod ExitCode
pub mod Completeness
use Prim.Native.String.{◌++◌ as str_append}
use wasi_webrtc_datachannels.Base.{
  ℕ, nat_eq, Bool, true, false, ◌&&◌, ◌||◌, ◌≡◌, ◌↔◌, not, Option, none, some, List, [], ◌∷◌, ◌++◌,
  map, String, any, filter, ltb, ◌==◌, Eq, string_eq, if◌then◌else◌, arith,
}
use wasi_webrtc_datachannels.Base.Text.{bytes}
use wasi_webrtc_datachannels.Base.Dict.{lookup, insert}
use wasi_webrtc_datachannels.Runner.Manifest.{
  Manifest, Unsupported, ExpectedFail, is_unsupported, expected_fail_for, is_some,
}

pub data RawStatus : Type 0 where
  pass : RawStatus
  fail : RawStatus
  skip : RawStatus

pub data Status : Type 0 where
  pass : Status
  fail : Status
  skip_unsupported : Status
  expected_fail : Status
  unexpected_pass : Status
  missing : Status

unfoldable pub is_failure : Status → Bool
is_failure Status.fail = true
is_failure unexpected_pass = true
is_failure Status.pass = false
is_failure skip_unsupported = false
is_failure Status.expected_fail = false
is_failure missing = false

pub record RawResult : Type 0 where
  pub test_id : String
  pub status : RawStatus
  pub detail : Option String

pub record AdapterReport : Type 0 where
  pub target : String
  pub environment : String
  pub results : List RawResult

pub record TestEntry : Type 0 where
  pub id : String
  pub tags : List String
  pub description : String

pub record Cell : Type 0 where
  pub status : Status
  pub detail : Option String

pub record Row : Type 0 where
  pub target : String
  pub environment : String

abbrev pub Key : Type 0
Key = String × String × String

abbrev pub key_eq : Key → Key → Bool
key_eq (a, b, c) (x, y, z) = a == x && b == y && c == z

pub key_eq_iff : (j k : Key) → (key_eq j k ≡ true) ↔ (j ≡ k)
key_eq_iff (a, b, c) (x, y, z) =
    ground (arith, string_eq.eq_iff a x, string_eq.eq_iff b y, string_eq.eq_iff c z)

instance abbrev pub key_Eq : Eq Key
key_Eq = record { eq = key_eq; eq_iff = key_eq_iff }

abbrev pub row_key : Row → String → Key
row_key r test = (r.target, r.environment, test)

pub record Matrix : Type 0 where
  pub rows : List Row
  pub tests : List String
  pub cells : List (Key × Cell)

abbrev pub Raw : Type 0
Raw = RawStatus × Option String

abbrev unexpected : ExpectedFail → Option String
unexpected xf =
    some (
      str_append (str_append "expected-fail passed (tracking " xf.tracking)
        "); update the manifest")

-- The cell of a test that is not unsupported.
unfoldable pub classify_raw : Option ExpectedFail → Option Raw → Cell
classify_raw xf none = record { status = missing; detail = none }
classify_raw xf (some (skip, detail)) = record { status = skip_unsupported; detail = detail }
classify_raw (some xf) (some (RawStatus.pass, detail)) = record {
  status = unexpected_pass;
  detail = unexpected xf;
}
classify_raw none (some (RawStatus.pass, detail)) = record { status = Status.pass; detail = detail }
classify_raw (some xf) (some (RawStatus.fail, detail)) = record {
  status = Status.expected_fail;
  detail = detail;
}
classify_raw none (some (RawStatus.fail, detail)) = record { status = Status.fail; detail = detail }

unfoldable pub classify_tagged : Option Unsupported → Option ExpectedFail → Option Raw → Cell
classify_tagged (some u) xf raw = record { status = skip_unsupported; detail = some u.reason }
classify_tagged none xf raw = classify_raw xf raw

unfoldable pub classify_one : Manifest → String → String → List String → Option Raw → Cell
classify_one m environment test_id tags raw =
    classify_tagged (is_unsupported m tags environment) (expected_fail_for m test_id environment)
      raw

-- The order of keys of a `BTreeMap<String, _>`.
unfoldable pub bytes_less : List ℕ → List ℕ → Bool
bytes_less xs [] = false
bytes_less [] (y ∷ ys) = true
bytes_less (x ∷ xs) (y ∷ ys) = ltb x y || x == y && bytes_less xs ys

abbrev pub ByEnv : Type 0
ByEnv = List (String × List (String × Raw))

unfoldable pub insert_ordered : String → List (String × Raw) → ByEnv → ByEnv
insert_ordered k v [] = (k, v) ∷ []
insert_ordered k v ((j, w) ∷ m) =
    let rest = insert_ordered k v m in
    if j == k
    then (k, v) ∷ m
    else if bytes_less (bytes k) (bytes j)
    then (k, v) ∷ (j, w) ∷ m
    else (j, w) ∷ rest

unfoldable pub record_results : List RawResult → List (String × Raw) → List (String × Raw)
record_results [] env = env
record_results (r ∷ rs) env = record_results rs (insert r.test_id (r.status, r.detail) env)

abbrev or_default : Option (List (String × Raw)) → List (String × Raw)
or_default none = []
or_default (some env) = env

unfoldable pub group_reports : List AdapterReport → ByEnv → ByEnv
group_reports [] by_env = by_env
group_reports (r ∷ rs) by_env = group_reports rs (
    insert_ordered r.environment
      (record_results r.results (or_default (lookup r.environment by_env))) by_env)

-- A target without a report gets one row, with an empty environment.
abbrev pub planned : ByEnv → ByEnv
planned [] = ("", []) ∷ []
planned (e ∷ es) = e ∷ es

unfoldable pub environments_of : Manifest → List AdapterReport → ByEnv
environments_of m reports = planned (group_reports (filter (λ r. r.target == m.id) reports) [])

unfoldable pub classify_row :
    Manifest → Row → List (String × Raw) → List TestEntry → List (Key × Cell) → List (Key × Cell)
classify_row m row raw [] cells = cells
classify_row m row raw (t ∷ ts) cells =
    classify_row m row raw ts (
      insert (row_key row t.id) (classify_one m row.environment t.id t.tags (lookup t.id raw))
        cells)

unfoldable pub classify_environments : Manifest → List TestEntry → ByEnv → Matrix → Matrix
classify_environments m tests [] x = x
classify_environments m tests ((environment, raw) ∷ es) x =
    let row : Row = record { target = m.id; environment = environment } in
    classify_environments m tests es
      (record x { cells = classify_row m row raw tests x.cells; rows = x.rows ++ row ∷ [] })

unfoldable pub classify_manifests :
    List TestEntry → List AdapterReport → List Manifest → Matrix → Matrix
classify_manifests tests reports [] x = x
classify_manifests tests reports (m ∷ ms) x =
    classify_manifests tests reports ms
      (classify_environments m tests (environments_of m reports) x)

unfoldable pub classify : List TestEntry → List Manifest → List AdapterReport → Matrix
classify registry manifests reports =
    classify_manifests registry reports manifests
      (record { rows = []; tests = map (λ t. t.id) registry; cells = [] })

unfoldable pub has_failures : Matrix → Bool
has_failures x = any (λ e. is_failure e.1.status) x.cells

abbrev failing : Row → String → Option Cell → List (Row × String × Cell)
failing row test none = []
failing row test (some c) = if is_failure c.status then (row, test, c) ∷ [] else []

unfoldable pub failures_in : List (Key × Cell) → Row → List String → List (Row × String × Cell)
failures_in cells row [] = []
failures_in cells row (t ∷ ts) =
    failing row t (lookup (row_key row t) cells) ++ failures_in cells row ts

unfoldable pub failures_of : List (Key × Cell) → List String → List Row → List (Row × String × Cell)
failures_of cells tests [] = []
failures_of cells tests (r ∷ rs) = failures_in cells r tests ++ failures_of cells tests rs

unfoldable pub failures : Matrix → List (Row × String × Cell)
failures x = failures_of x.cells x.tests x.rows
