-- ===== src/Runner/Plan/Failures.antt =====
-- The exit code against the list of failures, conformance/runner/src/plan.rs.
use wasi_webrtc_datachannels.Base.{
  ◌≡◌, refl, sym, ap, ◌∙◌, Bool, true, false, ◌||◌, Option, none, some, List, [], ◌∷◌, ◌++◌, String,
  any, ◌==◌, ==_refl, string_eq, arith, All,
}
use wasi_webrtc_datachannels.Base.Dict.{lookup, contains_key, IsMap, contains_key-lookup}
use wasi_webrtc_datachannels.Runner.Plan.{
  Row, Cell, Key, key_Eq, row_key, Matrix, is_failure, has_failures, failing, failures_in,
  failures_of, failures,
}

module _ {ℓ} {A : Type ℓ} where
  pub any-imp :
      (f g : A → Bool) (xs : List A)
      → ((x : A) → f x ≡ true → g x ≡ true)
      → any f xs ≡ true
      → any g xs ≡ true
  any-imp f g [] h e = cc
  any-imp f g (x ∷ xs) h e = ground (arith, h x, any-imp f g xs h)

  any_mono :
      (f : A → Bool) (b : Bool) (xs : List A)
      → All (λ x. f x ≡ true → b ≡ true) xs
      → any f xs ≡ true
      → b ≡ true
  any_mono f b [] h e = cc
  any_mono f b (x ∷ xs) h e = ground (arith, h.0, any_mono f b xs h.1)

  pub any-append : (f : A → Bool) (xs ys : List A) → any f (xs ++ ys) ≡ (any f xs || any f ys)
  any-append f [] ys = refl
  any-append f (x ∷ xs) ys = ground (arith, any-append f xs ys)

  pub All-map : {P Q : A → Type 0} (xs : List A) → ((x : A) → P x → Q x) → All P xs → All Q xs
  All-map [] h a = tt
  All-map (x ∷ xs) h a = (h x a.0, All-map xs h a.1)

  All-zip :
      {P Q R : A → Type 0} (xs : List A)
      → ((x : A) → P x → Q x → R x)
      → All P xs
      → All Q xs
      → All R xs
  All-zip [] h a b = tt
  All-zip (x ∷ xs) h a b = (h x a.0 b.0, All-zip xs h a.1 b.1)

  All-intro : {P : A → Type 0} (xs : List A) → ((x : A) → P x) → All P xs
  All-intro [] h = tt
  All-intro (x ∷ xs) h = (h x, All-intro xs h)

  abbrev pub nonempty : List A → Bool
  nonempty [] = false
  nonempty (x ∷ xs) = true

  nonempty-append : (xs ys : List A) → nonempty (xs ++ ys) ≡ (nonempty xs || nonempty ys)
  nonempty-append [] ys = refl
  nonempty-append (x ∷ xs) ys = refl

-- Whether the cell of a row and a test fails.
abbrev fails_at : Option Cell → Bool
fails_at none = false
fails_at (some c) = is_failure c.status

abbrev fails : List (Key × Cell) → Row → String → Bool
fails cells r t = fails_at (lookup (row_key r t) cells)

failing-nonempty : (r : Row) (t : String) (o : Option Cell) → nonempty (failing r t o) ≡ fails_at o
failing-nonempty r t none = refl
failing-nonempty r t (some c) = ground arith

failures_in-nonempty :
    (cells : List (Key × Cell)) (r : Row) (ts : List String)
    → nonempty (failures_in cells r ts) ≡ any (fails cells r) ts
unfolding failures_in
failures_in-nonempty cells r [] = refl
failures_in-nonempty cells r (t ∷ ts) =
    nonempty-append (failing r t (lookup (row_key r t) cells)) _
    ∙ cc (failing-nonempty r t (lookup (row_key r t) cells), failures_in-nonempty cells r ts)

failures_of-nonempty :
    (cells : List (Key × Cell)) (ts : List String) (rs : List Row)
    → nonempty (failures_of cells ts rs) ≡ any (λ r. any (fails cells r) ts) rs
unfolding failures_of
failures_of-nonempty cells ts [] = refl
failures_of-nonempty cells ts (r ∷ rs) =
    nonempty-append (failures_in cells r ts) _
    ∙ cc (failures_in-nonempty cells r ts, failures_of-nonempty cells ts rs)

abbrev entry_fails : Key × Cell → Bool
entry_fails e = is_failure e.1.status

lookup-fails :
    (k : Key) (cells : List (Key × Cell))
    → fails_at (lookup k cells) ≡ true
    → any entry_fails cells ≡ true
unfolding lookup
lookup-fails k [] h = cc
lookup-fails k ((j, c) ∷ cells) h = ground (arith, lookup-fails k cells)

-- Each entry of a map is what a lookup of its key finds.
lookup-entries :
    (cells : List (Key × Cell)) → IsMap cells → All (λ e. lookup e.0 cells ≡ some e.1) cells
unfolding lookup contains_key
lookup-entries [] h = tt
lookup-entries ((k, c) ∷ m) h =
    (rw (==_refl k) refl, All-map m (λ e found. later e found) (lookup-entries m h.1))
  where
    later : (e : Key × Cell) → lookup e.0 m ≡ some e.1 → lookup e.0 ((k, c) ∷ m) ≡ some e.1
    later e found =
        let there : contains_key e.0 m ≡ true = rw (contains_key-lookup e.0 m, found) refl in
        ground (arith, key_Eq.eq_iff k e.0, h.0)

-- The key is that of a row and a test of the matrix.
abbrev pub covered : List Row → List String → Key → Bool
covered rows tests k = any (λ r. any (λ t. k == row_key r t) tests) rows

pub record IsCovered (x : Matrix) : Type 0 where
  pub is_map : IsMap x.cells
  pub keys : All (λ e. covered x.rows x.tests e.0 ≡ true) x.cells

both_ways : {a b : Bool} → (a ≡ true → b ≡ true) → (b ≡ true → a ≡ true) → a ≡ b
both_ways f g = ground arith

entry-fail :
    (x : Matrix) (e : Key × Cell)
    → covered x.rows x.tests e.0 ≡ true
    → lookup e.0 x.cells ≡ some e.1
    → entry_fails e ≡ true
    → any (λ r. any (fails x.cells r) x.tests) x.rows ≡ true
entry-fail x e c found bad =
    any-imp _ _ x.rows
      (λ r. any-imp _ _ x.tests (λ t same.
        let k : e.0 ≡ row_key r t = (key_Eq.eq_iff e.0 (row_key r t)).0 same in
        let here : lookup (row_key r t) x.cells ≡ some e.1 =
          ap (λ k. lookup k x.cells) (sym k) ∙ found in
        rw here bad))
      c

entries-fail :
    (x : Matrix)
    → IsCovered x
    → All
        (λ e. entry_fails e ≡ true → any (λ r. any (fails x.cells r) x.tests) x.rows ≡ true)
        x.cells
entries-fail x v = All-zip x.cells (λ e. entry-fail x e) v.keys (lookup-entries x.cells v.is_map)

pub has_failures-nonempty : (x : Matrix) → IsCovered x → has_failures x ≡ nonempty (failures x)
unfolding has_failures failures
has_failures-nonempty x v =
    both_ways (any_mono entry_fails _ x.cells (entries-fail x v)) back
    ∙ sym (failures_of-nonempty x.cells x.tests x.rows)
  where
    back : any (λ r. any (fails x.cells r) x.tests) x.rows ≡ true → any entry_fails x.cells ≡ true
    back = any_mono _ _ x.rows (
        All-intro x.rows
          (λ r. any_mono _ _ x.tests (All-intro x.tests (λ t. lookup-fails (row_key r t) x.cells))))
