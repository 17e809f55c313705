-- ===== src/Base/Maps.antt =====
-- Go maps with string keys as association lists. A write to a key that is there replaces its
-- value in place, a new key goes to the end, and the order stands for that of an iteration.
use mgate_agent.Base.Tests.{if◌then◌else◌, Bool-cases, is_some}
use mgate_agent.Base.Lists.{length}
use mgate_agent.Base.Text.{Text, text_eq, text_eq_iff, text_eq→eq}
use Prim.Native.Nat.{◌+◌, ◌≤◌, ◌<◌}
use mathlib.Core.Path.{◌≡◌, refl, subst}
use mathlib.Core.Logic.{inl, inr}
use mathlib.Core.Bool.{Bool, true}
use mathlib.Core.Option.{Option, none, some}
use mathlib.Core.List.{List, [], ◌∷◌}
use native.Mathlib.Omega.{arith}

abbrev pub Map {ℓ} : Type ℓ → Type ℓ
Map V = List (Text × V)

module _ {ℓ} {V : Type ℓ} where
  unfoldable pub lookup : Text → Map V → Option V
  lookup k [] = none
  lookup k ((j, v) ∷ m) = if text_eq j k then some v else lookup k m

  unfoldable pub insert : Text → V → Map V → Map V
  insert k v [] = (k, v) ∷ []
  insert k v ((j, w) ∷ m) = if text_eq j k then (k, v) ∷ m else (j, w) ∷ insert k v m

  unfoldable pub remove : Text → Map V → Map V
  remove k [] = []
  remove k ((j, w) ∷ m) = let rest = remove k m in if text_eq j k then rest else (j, w) ∷ rest

  -- _, ok := m[k]
  abbrev pub has_key : Text → Map V → Bool
  has_key k m = is_some (lookup k m)

  pub lookup-insert :
      (k j : Text) (v : V) (m : Map V)
      → lookup j (insert k v m) ≡ (if text_eq k j then some v else lookup j m)
  unfolding lookup insert
  lookup-insert k j v [] = refl
  lookup-insert k j v ((i, w) ∷ m) =
      ground (arith, text_eq_iff k j, text_eq_iff i k, text_eq_iff i j, lookup-insert k j v m)

  pub lookup-remove :
      (k j : Text) (m : Map V) → lookup j (remove k m) ≡ (if text_eq k j then none else lookup j m)
  unfolding lookup remove
  lookup-remove k j [] = ground arith
  lookup-remove k j ((i, w) ∷ m) =
      ground (arith, text_eq_iff k j, text_eq_iff i k, text_eq_iff i j, lookup-remove k j m)

  pub length-remove-le : (k : Text) (m : Map V) → length (remove k m) ≤ length m
  unfolding remove
  length-remove-le k [] = omega arith
  length-remove-le k ((i, w) ∷ m) = ground (arith, length-remove-le k m)

  pub length-remove-lt :
      (k : Text) (m : Map V) (v : V) → lookup k m ≡ some v → length (remove k m) < length m
  unfolding lookup remove
  length-remove-lt k [] v h = cc
  length-remove-lt k ((i, w) ∷ m) v h = ground (arith, length-remove-le k m, length-remove-lt k m v)

  pub length-insert-le : (k : Text) (v : V) (m : Map V) → length (insert k v m) ≤ length m + 1
  unfolding insert
  length-insert-le k v [] = omega arith
  length-insert-le k v ((i, w) ∷ m) = ground (arith, length-insert-le k v m)

  -- no key stands twice
  abbrev pub IsDistinct : Map V → Type ℓ
  IsDistinct [] = Unit
  IsDistinct ((k, v) ∷ m) = (lookup k m ≡ none) × IsDistinct m

  pub remove-IsDistinct : (k : Text) (m : Map V) → IsDistinct m → IsDistinct (remove k m)
  unfolding remove
  remove-IsDistinct k [] d = tt
  remove-IsDistinct k ((i, w) ∷ m) d = elim (Bool-cases (text_eq i k)) [
    | inl e ↦ rw e (remove-IsDistinct k m d.1)
    | inr e ↦ rw e (
      ground (arith, lookup-remove k i m, d.0, text_eq_iff k i, text_eq_iff i k),
      remove-IsDistinct k m d.1,
    )
  ]

  pub insert-IsDistinct : (k : Text) (v : V) (m : Map V) → IsDistinct m → IsDistinct (insert k v m)
  unfolding insert lookup
  insert-IsDistinct k v [] d = (refl, tt)
  insert-IsDistinct k v ((i, w) ∷ m) d = elim (Bool-cases (text_eq i k)) [
    | inl e ↦ rw e (subst (λ t. lookup t m ≡ none) (text_eq→eq i k e) d.0, d.1)
    | inr e ↦ rw e (
      ground (arith, lookup-insert k i v m, d.0, text_eq_iff k i, text_eq_iff i k),
      insert-IsDistinct k v m d.1,
    )
  ]

  -- the entries whose value passes the test
  unfoldable pub keep : (V → Bool) → Map V → Map V
  keep p [] = []
  keep p ((j, w) ∷ m) = let rest = keep p m in if p w then (j, w) ∷ rest else rest

  pub lookup-keep :
      (p : V → Bool) (k : Text) (m : Map V) (v : V)
      → lookup k m ≡ some v
      → p v ≡ true
      → lookup k (keep p m) ≡ some v
  unfolding lookup keep
  lookup-keep p k [] v h pv = cc
  lookup-keep p k ((i, w) ∷ m) v h pv = ground (arith, lookup-keep p k m v)

  pub lookup-keep-none :
      (p : V → Bool) (k : Text) (m : Map V) → lookup k m ≡ none → lookup k (keep p m) ≡ none
  unfolding lookup keep
  lookup-keep-none p k [] h = refl
  lookup-keep-none p k ((i, w) ∷ m) h = ground (arith, lookup-keep-none p k m)

  pub length-keep-le : (p : V → Bool) (m : Map V) → length (keep p m) ≤ length m
  unfolding keep
  length-keep-le p [] = omega arith
  length-keep-le p ((i, w) ∷ m) = ground (arith, length-keep-le p m)

  pub keep-IsDistinct : (p : V → Bool) (m : Map V) → IsDistinct m → IsDistinct (keep p m)
  unfolding keep
  keep-IsDistinct p [] d = tt
  keep-IsDistinct p ((i, w) ∷ m) d = elim (Bool-cases (p w)) [
    | inl e ↦ rw e (lookup-keep-none p i m d.0, keep-IsDistinct p m d.1)
    | inr e ↦ rw e (keep-IsDistinct p m d.1)
  ]
