-- ===== src/Runner/Tests.antt =====
-- The theorems on conformance/runner/src at a small registry.
use wasi_webrtc_datachannels.Base.{
  ◌≡◌, ◌&&◌, ◌||◌, not, Option, none, some, List, [], ◌∷◌, any, string_eq,
}
use wasi_webrtc_datachannels.Runner.Manifest.{Manifest, Unsupported}
use wasi_webrtc_datachannels.Runner.Manifest.Precedence.{applies}
use wasi_webrtc_datachannels.Runner.Plan.{
  RawStatus, TestEntry, AdapterReport, Raw, is_failure, classify_one, classify, has_failures,
  failures,
}
use wasi_webrtc_datachannels.Runner.Plan.Classification.{
  passed, failed, declared, classify_one-is_failure,
}
use wasi_webrtc_datachannels.Runner.Plan.Failures.{nonempty}
use wasi_webrtc_datachannels.Runner.Plan.ExitCode.{classify-has_failures}

abbrev everywhere : Unsupported
everywhere = record { tag = "close"; reason = "no close"; environments = none }

abbrev on_lan : Unsupported
on_lan = record {
  tag = "close";
  reason = "no close on a network";
  environments = some ("lan" ∷ []);
}

abbrev guest : Manifest
guest = record {
  id = "wasip3-guest";
  unsupported = on_lan ∷ everywhere ∷ [];
  expected_fail =
      record { test = "echo"; reason = "slow"; tracking = "TODO"; environments = none } ∷ [];
}

abbrev reported_pass : Option Raw
reported_pass = some (RawStatus.pass, none)

classify_one-is_failure_example :
    is_failure (classify_one guest "loopback" "echo" ("echo" ∷ []) reported_pass).status ≡ (
      not (any (applies ("echo" ∷ []) "loopback") guest.unsupported)
      && (passed reported_pass && declared guest "loopback" "echo"
          || failed reported_pass && not (declared guest "loopback" "echo")))
classify_one-is_failure_example =
    classify_one-is_failure guest "loopback" "echo" ("echo" ∷ []) reported_pass

abbrev registry : List TestEntry
registry =
    record { id = "echo"; tags = []; description = "" }
    ∷ record { id = "close"; tags = "close" ∷ []; description = "" }
    ∷ []

abbrev reports : List AdapterReport
reports =
    record {
      target = "wasip3-guest";
      environment = "loopback";
      results = record { test_id = "echo"; status = RawStatus.pass; detail = none } ∷ [];
    }
    ∷ []

classify-has_failures_example :
    let x = classify registry (guest ∷ []) reports in has_failures x ≡ nonempty (failures x)
classify-has_failures_example = classify-has_failures registry (guest ∷ []) reports
