-- ===== src/Adapters/Outcome/Folding.antt =====
-- What the folded outcome of two instances tells.
use wasi_webrtc_datachannels.Base.{◌≡◌, refl, Bool, true, false, ◌||◌, String, string_eq}
use wasi_webrtc_datachannels.Runner.Plan.{RawStatus, RawResult}
use wasi_webrtc_datachannels.Adapters.Outcome.{
  TestOutcome, pass, fail, skipped, to_json, Parsed, parse_outcome, fold_two, outcome_to_raw,
  Instance, joined, run_test,
}

-- What an instance prints reads back as its outcome.
pub parse-to_json : (o : TestOutcome) → parse_outcome (to_json o) ≡ Parsed.ok o
unfolding parse_outcome to_json
parse-to_json pass = refl
parse-to_json (fail d) = refl
parse-to_json (skipped r) = refl

abbrev pub is_fail : TestOutcome → Bool
is_fail (fail d) = true
is_fail pass = false
is_fail (skipped r) = false

pub fold_two-is_fail : (o a : TestOutcome) → is_fail (fold_two o a) ≡ (is_fail o || is_fail a)
unfolding fold_two
fold_two-is_fail (fail a) (fail b) = refl
fold_two-is_fail (fail a) pass = refl
fold_two-is_fail (fail a) (skipped b) = refl
fold_two-is_fail pass (fail b) = refl
fold_two-is_fail (skipped a) (fail b) = refl
fold_two-is_fail (skipped a) pass = refl
fold_two-is_fail (skipped a) (skipped b) = refl
fold_two-is_fail pass (skipped b) = refl
fold_two-is_fail pass pass = refl

-- An instance is sound if it ended without an error and did not fail.
abbrev pub is_sound : Instance → Bool
is_sound (Instance.ok (fail d)) = false
is_sound (Instance.ok pass) = true
is_sound (Instance.ok (skipped r)) = true
is_sound (Instance.err e) = false

-- The raw result that a two-peer test is reported with.
abbrev pub reported : String → Instance → Instance → RawResult
reported test_id o a = run_test test_id (joined o a)

abbrev pub is_fail_status : RawStatus → Bool
is_fail_status RawStatus.fail = true
is_fail_status RawStatus.pass = false
is_fail_status RawStatus.skip = false

pub status-is_fail :
    (t : String) (o : TestOutcome) → is_fail_status (outcome_to_raw t o).status ≡ is_fail o
unfolding outcome_to_raw
status-is_fail t pass = refl
status-is_fail t (fail d) = refl
status-is_fail t (skipped r) = refl
