-- ===== src/Runner/Manifest.antt =====
-- The target manifests of conformance/runner/src/manifest.rs, after parsing.
pub mod Precedence
use wasi_webrtc_datachannels.Base.{
  Bool, true, false, ◌&&◌, not, Option, none, some, List, [], ◌∷◌, String, any, filter, ◌==◌,
  string_eq, if◌then◌else◌,
}

pub record Unsupported : Type 0 where
  pub tag : String
  pub reason : String
  pub environments : Option (List String)

pub record ExpectedFail : Type 0 where
  pub test : String
  pub reason : String
  pub tracking : String
  pub environments : Option (List String)

pub record Manifest : Type 0 where
  pub id : String
  pub unsupported : List Unsupported
  pub expected_fail : List ExpectedFail

unfoldable pub scope_applies : Option (List String) → String → Bool
scope_applies none environment = true
scope_applies (some envs) environment = any (λ e. e == environment) envs

abbrev pub is_some {ℓ} : {A : Type ℓ} → Option A → Bool
is_some none = false
is_some (some a) = true

-- `Iterator::max_by_key` with a Boolean key: the last of the greatest.
unfoldable pub max_from {ℓ} : {A : Type ℓ} → (A → Bool) → A → List A → A
max_from key best [] = best
max_from key best (x ∷ xs) =
    let keep = max_from key best xs in
    let take = max_from key x xs in if key best && not (key x) then keep else take

unfoldable pub max_by_key {ℓ} : {A : Type ℓ} → (A → Bool) → List A → Option A
max_by_key key [] = none
max_by_key key (x ∷ xs) = some (max_from key x xs)

unfoldable pub is_unsupported : Manifest → List String → String → Option Unsupported
is_unsupported m tags environment =
    max_by_key (λ u. is_some u.environments)
      (filter (λ u. any (λ t. t == u.tag) tags)
        (filter (λ u. scope_applies u.environments environment) m.unsupported))

unfoldable pub expected_fail_for : Manifest → String → String → Option ExpectedFail
expected_fail_for m test_id environment =
    max_by_key (λ e. is_some e.environments)
      (filter (λ e. e.test == test_id)
        (filter (λ e. scope_applies e.environments environment) m.expected_fail))

-- What `validate` reports, for the first entry whose list of environments is empty.
pub data Invalid : Type 0 where
  empty_for_tag : String → Invalid
  empty_for_test : String → Invalid

abbrev pub is_empty_scope : Option (List String) → Bool
is_empty_scope none = false
is_empty_scope (some []) = true
is_empty_scope (some (e ∷ es)) = false

unfoldable pub validate_tests : List ExpectedFail → Option Invalid
validate_tests [] = none
validate_tests (e ∷ es) =
    let rest = validate_tests es in
    if is_empty_scope e.environments then some (empty_for_test e.test) else rest

unfoldable pub validate_tags : List Unsupported → Option Invalid → Option Invalid
validate_tags [] after = after
validate_tags (u ∷ us) after =
    let rest = validate_tags us after in
    if is_empty_scope u.environments then some (empty_for_tag u.tag) else rest

unfoldable pub validate : Manifest → Option Invalid
validate m = validate_tags m.unsupported (validate_tests m.expected_fail)
