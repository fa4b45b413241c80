-- ===== src/Runner/Plan/Classification.antt =====
-- When a test fails a run, conformance/runner/src/plan.rs.
use wasi_webrtc_datachannels.Base.{
  ◌≡◌, refl, Bool, true, false, ◌&&◌, ◌||◌, not, Option, none, some, List, String, any, ◌==◌,
  string_eq,
}
use wasi_webrtc_datachannels.Runner.Manifest.{
  Manifest, Unsupported, ExpectedFail, scope_applies, is_some, is_unsupported, expected_fail_for,
}
use wasi_webrtc_datachannels.Runner.Manifest.Precedence.{
  applies, is_some-is_unsupported, is_some-expected_fail_for,
}
use wasi_webrtc_datachannels.Runner.Plan.{
  RawStatus, skip, Raw, is_failure, classify_raw, classify_tagged, classify_one,
}

-- Whether an adapter reported a pass, or a failure.
abbrev pub passed : Option Raw → Bool
passed (some (RawStatus.pass, detail)) = true
passed (some (RawStatus.fail, detail)) = false
passed (some (skip, detail)) = false
passed none = false

abbrev pub failed : Option Raw → Bool
failed (some (RawStatus.fail, detail)) = true
failed (some (RawStatus.pass, detail)) = false
failed (some (skip, detail)) = false
failed none = false

-- Whether a failure of the test is declared, in this environment.
abbrev pub declared : Manifest → String → String → Bool
declared m environment test_id =
    any (λ e. scope_applies e.environments environment && e.test == test_id) m.expected_fail

classify_raw-failure :
    (xf : Option ExpectedFail) (raw : Option Raw)
    → is_failure (classify_raw xf raw).status
      ≡ (passed raw && is_some xf || failed raw && not (is_some xf))
unfolding is_failure classify_raw
classify_raw-failure none none = refl
classify_raw-failure none (some (RawStatus.pass, d)) = refl
classify_raw-failure none (some (RawStatus.fail, d)) = refl
classify_raw-failure none (some (skip, d)) = refl
classify_raw-failure (some x) none = refl
classify_raw-failure (some x) (some (RawStatus.pass, d)) = refl
classify_raw-failure (some x) (some (RawStatus.fail, d)) = refl
classify_raw-failure (some x) (some (skip, d)) = refl

classify_tagged-failure :
    (u : Option Unsupported) (xf : Option ExpectedFail) (raw : Option Raw)
    → is_failure (classify_tagged u xf raw).status
      ≡ (not (is_some u) && (passed raw && is_some xf || failed raw && not (is_some xf)))
unfolding is_failure classify_tagged
classify_tagged-failure (some u) xf raw = refl
classify_tagged-failure none xf raw = classify_raw-failure xf raw

-- A cell fails the run exactly if no entry makes the test unsupported here, and the test either
-- passed where a failure is declared or failed where none is. A test that was skipped or that no
-- adapter reported never does.
pub classify_one-is_failure :
    (m : Manifest) (environment test_id : String) (tags : List String) (raw : Option Raw)
    → is_failure (classify_one m environment test_id tags raw).status ≡ (
        not (any (applies tags environment) m.unsupported)
        && (passed raw && declared m environment test_id
            || failed raw && not (declared m environment test_id)))
unfolding classify_one
classify_one-is_failure m environment test_id tags raw =
    rw
      (
        ← is_some-is_unsupported m tags environment,
        ← is_some-expected_fail_for m test_id environment,
      )
      (classify_tagged-failure (is_unsupported m tags environment)
        (expected_fail_for m test_id environment) raw)
