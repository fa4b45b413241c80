-- ===== src/Base/Dict.antt =====
-- Rust's `HashMap` and `BTreeMap` as association lists: one entry for each key, new keys at the end.
use Prim.Native.Nat.{suc}
use mathlib.Core.Path.{◌≡◌, refl}
use mathlib.Core.List.{List, [], ◌∷◌}
use mathlib.Core.Option.{Option, none, some}
use mathlib.Core.Bool.{Bool, true, false}
use native.Mathlib.Omega.{arith}
use wasi_webrtc_datachannels.Base.Tests.{Eq, ◌==◌, if◌then◌else◌}
use wasi_webrtc_datachannels.Base.Lists.{length}

module _ {ℓ κ} {K : Type ℓ} ⦃e : Eq K⦄ {V : Type κ} where
  unfoldable pub lookup : K → List (K × V) → Option V
  lookup k [] = none
  lookup k ((j, v) ∷ m) = if j == k then some v else lookup k m

  unfoldable pub contains_key : K → List (K × V) → Bool
  contains_key k [] = false
  contains_key k ((j, v) ∷ m) = if j == k then true else contains_key k m

  unfoldable pub insert : K → V → List (K × V) → List (K × V)
  insert k v ((j, old) ∷ d) = if j == k then (k, v) ∷ d else (j, old) ∷ insert k v d
  insert k v [] = (k, v) ∷ []

  unfoldable pub remove : K → List (K × V) → List (K × V)
  remove k [] = []
  remove k ((j, v) ∷ m) = let rest = remove k m in if j == k then rest else (j, v) ∷ rest

  pub lookup-insert :
      (at key : K) (x : V) (d : List (K × V))
      → lookup key (insert at x d) ≡ (if at == key then some x else lookup key d)
  unfolding insert lookup
  lookup-insert at key x ((i, y) ∷ d) =
      ground (arith, lookup-insert at key x d, e.eq_iff i key, e.eq_iff i at, e.eq_iff at key)
  lookup-insert at key x [] = refl

  pub lookup-remove :
      (k j : K) (m : List (K × V)) → lookup j (remove k m) ≡ (if k == j then none else lookup j m)
  unfolding lookup remove
  lookup-remove k j [] = ground arith
  lookup-remove k j ((i, v) ∷ m) =
      ground (arith, e.eq_iff k j, e.eq_iff i k, e.eq_iff i j, lookup-remove k j m)

  pub contains_key-lookup :
      (k : K) (m : List (K × V))
      → contains_key k m ≡ (elim (lookup k m) [ none ↦ false | some v ↦ true ])
  unfolding lookup contains_key
  contains_key-lookup k [] = refl
  contains_key-lookup k ((j, v) ∷ m) = ground (arith, contains_key-lookup k m)

  -- A write to a key that is there keeps the size; a new key adds one.
  pub length-insert :
      (k : K) (v : V) (m : List (K × V))
      → length (insert k v m) ≡ (if contains_key k m then length m else suc (length m))
  unfolding insert contains_key
  length-insert k v [] = refl
  length-insert k v ((j, w) ∷ m) = ground (arith, length-insert k v m)

  -- No key stands twice.
  abbrev pub IsMap : List (K × V) → Type 0
  IsMap [] = Unit
  IsMap ((k, v) ∷ m) = (contains_key k m ≡ false) × IsMap m

  pub contains_key-insert :
      (k j : K) (v : V) (m : List (K × V))
      → contains_key j (insert k v m) ≡ (if k == j then true else contains_key j m)
  unfolding insert contains_key
  contains_key-insert k j v [] = refl
  contains_key-insert k j v ((i, w) ∷ m) =
      ground (arith, e.eq_iff k j, e.eq_iff i k, e.eq_iff i j, contains_key-insert k j v m)

  pub contains_key-remove :
      (k j : K) (m : List (K × V))
      → contains_key j (remove k m) ≡ (if k == j then false else contains_key j m)
  unfolding remove contains_key
  contains_key-remove k j [] = ground arith
  contains_key-remove k j ((i, w) ∷ m) =
      ground (arith, e.eq_iff k j, e.eq_iff i k, e.eq_iff i j, contains_key-remove k j m)

  pub insert-IsMap : (k : K) (v : V) (m : List (K × V)) → IsMap m → IsMap (insert k v m)
  unfolding insert contains_key
  insert-IsMap k v [] h = (refl, tt)
  insert-IsMap k v ((j, w) ∷ m) h =
      ground
        (arith, e.eq_iff j k, e.eq_iff k j, insert-IsMap k v m h.1, contains_key-insert k j v m)

  pub remove-IsMap : (k : K) (m : List (K × V)) → IsMap m → IsMap (remove k m)
  unfolding remove
  remove-IsMap k [] h = tt
  remove-IsMap k ((j, w) ∷ m) h =
      ground (arith, e.eq_iff j k, remove-IsMap k m h.1, contains_key-remove k j m)

  pub length-remove_absent :
      (k : K) (m : List (K × V)) → contains_key k m ≡ false → length (remove k m) ≡ length m
  unfolding remove contains_key
  length-remove_absent k [] h = refl
  length-remove_absent k ((j, w) ∷ m) h = ground (arith, length-remove_absent k m)

  -- Removing a key that is there takes away one entry.
  pub length-remove :
      (k : K) (m : List (K × V))
      → IsMap m
      → contains_key k m ≡ true
      → suc (length (remove k m)) ≡ length m
  unfolding remove contains_key
  length-remove k [] h c = cc
  length-remove k ((j, w) ∷ m) h c =
      ground (arith, e.eq_iff j k, length-remove k m h.1, length-remove_absent k m)

pub ruleset dict_laws = (lookup-insert, lookup-remove)

module _ {ℓ κ} {K : Type ℓ} ⦃e : Eq K⦄ {V : Type κ} where
  pub remove_absent : (k : K) (m : List (K × V)) → contains_key k m ≡ false → remove k m ≡ m
  unfolding remove contains_key
  remove_absent k [] h = refl
  remove_absent k ((j, w) ∷ m) h = ground (arith, remove_absent k m)
