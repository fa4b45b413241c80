-- ===== src/Runner/Manifest/Precedence.antt =====
-- Which entry of a manifest applies, conformance/runner/src/manifest.rs.
use wasi_webrtc_datachannels.Base.{
  ◌≡◌, refl, sym, subst, ap, ◌∙◌, Bool, true, ◌&&◌, not, some, List, [], ◌∷◌, String, any, filter,
  ◌==◌, string_eq, Bool-cases, inl, inr, arith, All, if_cases,
}
use wasi_webrtc_datachannels.Runner.Manifest.{
  Manifest, Unsupported, scope_applies, is_some, max_from, max_by_key, is_unsupported,
  expected_fail_for,
}

module _ {ℓ} {A : Type ℓ} (key : A → Bool) where
  max_from-key : (best : A) (xs : List A) → key (max_from key best xs) ≡ any key (best ∷ xs)
  unfolding max_from
  max_from-key best [] = ground arith
  max_from-key best (x ∷ xs) = ground (arith, max_from-key best xs, max_from-key x xs)

  -- What holds of the elements holds of the greatest.
  max_from-All :
      (P : A → Type 0) (best : A) (xs : List A) → P best → All P xs → P (max_from key best xs)
  unfolding max_from
  max_from-All P best [] h a = h
  max_from-All P best (x ∷ xs) h a =
      if_cases P (key best && not (key x)) _ _ (λ k. max_from-All P best xs h a.1)
        (λ k. max_from-All P x xs a.0 a.1)

  max_by_key-chosen :
      (P : A → Type 0) (xs : List A) (r : A)
      → max_by_key key xs ≡ some r
      → All P xs
      → P r × (key r ≡ any key xs)
  unfolding max_by_key
  max_by_key-chosen P [] r e a = cc
  max_by_key-chosen P (x ∷ xs) r e a =
      let same : max_from key x xs ≡ r = ground arith in
      (subst P same (max_from-All P x xs a.0 a.1), ap key (sym same) ∙ max_from-key x xs)

  is_some-max_by_key : (xs : List A) → is_some (max_by_key key xs) ≡ any (λ x. true) xs
  unfolding max_by_key
  is_some-max_by_key [] = refl
  is_some-max_by_key (x ∷ xs) = refl

and_assoc : (a b c : Bool) → (a && (b && c)) ≡ (a && b && c)
and_assoc a b c = ground arith

and_true : (a b : Bool) → (a && (b && true)) ≡ (a && b)
and_true a b = ground arith

module _ {ℓ} {A : Type ℓ} where
  filter-All :
      (P : A → Type 0) (p : A → Bool) (xs : List A)
      → All P xs
      → All (λ x. P x × (p x ≡ true)) (filter p xs)
  filter-All P p [] a = tt
  filter-All P p (x ∷ xs) a = elim (Bool-cases (p x)) [
    | inl e ↦ rw (e, filter) ((a.0, e), filter-All P p xs a.1)
    | inr e ↦ rw (e, filter) (filter-All P p xs a.1)
  ]

  trivial : (xs : List A) → All (λ x. Unit {0}) xs
  trivial [] = tt
  trivial (x ∷ xs) = (tt, trivial xs)

  any-filter : (k p : A → Bool) (xs : List A) → any k (filter p xs) ≡ any (λ x. p x && k x) xs
  any-filter k p [] = refl
  any-filter k p (x ∷ xs) = ground (arith, any-filter k p xs)

  any_same : (f g : A → Bool) (xs : List A) → ((x : A) → f x ≡ g x) → any f xs ≡ any g xs
  any_same f g [] h = refl
  any_same f g (x ∷ xs) h = cc (h x, any_same f g xs h)

  -- Two filters and the greatest of what is left.
  chosen :
      (key p q : A → Bool) (xs : List A) (r : A)
      → max_by_key key (filter q (filter p xs)) ≡ some r
      → (p r ≡ true) × (q r ≡ true) × (key r ≡ any (λ x. p x && q x && key x) xs)
  chosen key p q xs r e =
      let (((u, hp), hq), hk) =
        max_by_key-chosen key _ _ r e (filter-All _ q _ (filter-All _ p xs (trivial xs))) in
      (
        hp,
        hq,
        hk
            ∙ any-filter key q (filter p xs)
            ∙ any-filter (λ x. q x && key x) p xs
            ∙ any_same _ _ xs (λ x. and_assoc (p x) (q x) (key x)),
      )

  chosen-some :
      (key p q : A → Bool) (xs : List A)
      → is_some (max_by_key key (filter q (filter p xs))) ≡ any (λ x. p x && q x) xs
  chosen-some key p q xs =
      is_some-max_by_key key _
      ∙ any-filter (λ x. true) q (filter p xs)
      ∙ any-filter (λ x. q x && true) p xs
      ∙ any_same _ _ xs (λ x. and_true (p x) (q x))

-- An entry for a tag of the test and for the environment.
abbrev pub applies : List String → String → Unsupported → Bool
applies tags environment u = scope_applies u.environments environment && any (λ t. t == u.tag) tags

-- The entry that makes a test unsupported applies to it, and is one with a list of environments
-- exactly if any entry that applies has one.
pub is_unsupported-precedence :
    (m : Manifest) (tags : List String) (environment : String) (u : Unsupported)
    → is_unsupported m tags environment ≡ some u
    → (applies tags environment u ≡ true)
      × (is_some u.environments
          ≡ any (λ v. applies tags environment v && is_some v.environments) m.unsupported)
unfolding is_unsupported
is_unsupported-precedence m tags environment u e =
    let (scope, tag, key) =
      chosen (λ v. is_some v.environments) (λ v. scope_applies v.environments environment)
        (λ v. any (λ t. t == v.tag) tags) m.unsupported u e in
    (rw (scope, tag) refl, key)

pub is_some-is_unsupported :
    (m : Manifest) (tags : List String) (environment : String)
    → is_some (is_unsupported m tags environment) ≡ any (applies tags environment) m.unsupported
unfolding is_unsupported
is_some-is_unsupported m tags environment =
    chosen-some (λ v. is_some v.environments) _ _ m.unsupported

pub is_some-expected_fail_for :
    (m : Manifest) (test_id environment : String)
    → is_some (expected_fail_for m test_id environment)
      ≡ any (λ e. scope_applies e.environments environment && e.test == test_id) m.expected_fail
unfolding expected_fail_for
is_some-expected_fail_for m test_id environment =
    chosen-some (λ e. is_some e.environments) _ _ m.expected_fail
