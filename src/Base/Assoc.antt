-- ===== src/Base/Assoc.antt =====
-- Go maps, as association lists in which every key stands at most once; the program never depends
-- on the order in which a map is ranged over. Keys have a Boolean equality.
use portfolio_backend.Base.Int.{ℤ, eq_ℤ, eq_ℤ_iff}
use portfolio_backend.Base.Tests.{◌==◌, ==_iff, Bool-cases, if◌then◌else◌}
use portfolio_backend.Base.Lists.{length, filter, All}
use portfolio_backend.Base.Text.{Text, text_eq, text_eq_iff}
use Prim.Native.Nat.{ℕ, suc}
use mathlib.Core.Path.{◌≡◌, refl}
use mathlib.Core.Logic.{◌↔◌, inl, inr}
use mathlib.Core.Bool.{Bool, true}
use mathlib.Core.Option.{Option, none, some}
use mathlib.Core.List.{map, List, [], ◌∷◌}
use native.Mathlib.Omega.{arith}

pub record Eq (A : Type 0) : Type 0 where
  pub beq : A → A → Bool
  pub beq_iff : (a b : A) → (beq a b ≡ true) ↔ (a ≡ b)

instance abbrev pub nat_eq : Eq ℕ
nat_eq = record { beq = ◌==◌; beq_iff = ==_iff }

instance abbrev pub text_key : Eq Text
text_key = record { beq = text_eq; beq_iff = text_eq_iff }

instance abbrev pub int_key : Eq ℤ
int_key = record { beq = eq_ℤ; beq_iff = eq_ℤ_iff }

module _ {K V : Type 0} ⦃e : Eq K⦄ where
  unfoldable pub lookup : K → List (K × V) → Option V
  lookup k [] = none
  lookup k ((j, v) ∷ m) = if e.beq j k then some v else lookup k m

  -- m[k] = v
  unfoldable pub insert : K → V → List (K × V) → List (K × V)
  insert k v [] = (k, v) ∷ []
  insert k v ((j, w) ∷ m) = if e.beq j k then (k, v) ∷ m else (j, w) ∷ insert k v m

  -- No key stands twice.
  abbrev pub Distinct : List (K × V) → Type 0
  Distinct [] = Unit
  Distinct ((k, v) ∷ m) = (lookup k m ≡ none) × Distinct m

  pub lookup-insert :
      (new asked : K) (x : V) (entries : List (K × V))
      → lookup asked (insert new x entries)
        ≡ (if e.beq new asked then some x else lookup asked entries)
  unfolding insert lookup
  lookup-insert new asked x [] = refl
  lookup-insert new asked x (entry ∷ entries) = ground (
    arith,
    lookup-insert new asked x entries,
    e.beq_iff entry.0 asked,
    e.beq_iff entry.0 new,
    e.beq_iff new asked,
  )

  pub insert-Distinct : (k : K) (v : V) (m : List (K × V)) → Distinct m → Distinct (insert k v m)
  unfolding insert lookup
  insert-Distinct k v [] d = (refl, tt)
  insert-Distinct k v ((i, w) ∷ m) d =
      ground (arith, e.beq_iff i k, e.beq_iff k i, insert-Distinct k v m, lookup-insert k i v m)

  pub length-insert_new :
      (k : K) (v : V) (m : List (K × V))
      → lookup k m ≡ none
      → length (insert k v m) ≡ suc (length m)
  unfolding insert lookup
  length-insert_new k v [] h = refl
  length-insert_new k v ((i, w) ∷ m) h = ground (arith, length-insert_new k v m)

  pub length-insert_old :
      (k : K) (v : V) (m : List (K × V)) {w : V}
      → lookup k m ≡ some w
      → length (insert k v m) ≡ length m
  unfolding insert lookup
  length-insert_old k v [] h = cc
  length-insert_old k v ((i, u) ∷ m) {w} h = ground (arith, length-insert_old k v m {w = w})

  -- what survives a sweep
  abbrev pub kept : (K × V → Bool) → K → Option V → Option V
  kept p k none = none
  kept p k (some v) = if p (k, v) then some v else none

  lookup-filter-none :
      (p : K × V → Bool) (k : K) (m : List (K × V))
      → lookup k m ≡ none
      → lookup k (filter p m) ≡ none
  unfolding lookup
  lookup-filter-none p k [] h = refl
  lookup-filter-none p k ((i, w) ∷ m) h = ground (arith, lookup-filter-none p k m)

  pub lookup-filter :
      (p : K × V → Bool) (k : K) (m : List (K × V))
      → Distinct m
      → lookup k (filter p m) ≡ kept p k (lookup k m)
  unfolding lookup
  lookup-filter p k [] d = refl
  lookup-filter p k ((i, w) ∷ m) d =
      ground (arith, e.beq_iff i k, lookup-filter p k m, lookup-filter-none p i m)

  pub filter-Distinct : (p : K × V → Bool) (m : List (K × V)) → Distinct m → Distinct (filter p m)
  filter-Distinct p [] d = tt
  filter-Distinct p ((i, w) ∷ m) d = ground (arith, filter-Distinct p m, lookup-filter-none p i m)

  pub All-insert :
      (P : K × V → Type 0) (k : K) (v : V) (m : List (K × V))
      → All P m
      → P (k, v)
      → All P (insert k v m)
  unfolding insert
  All-insert P k v [] a p = (p, tt)
  All-insert P k v ((i, w) ∷ m) a p = ground (arith, All-insert P k v m)

  pub All-filter :
      (P : K × V → Type 0) (p : K × V → Bool) (m : List (K × V)) → All P m → All P (filter p m)
  All-filter P p [] a = tt
  All-filter P p ((i, w) ∷ m) a = ground (arith, All-filter P p m)

  pub All-lookup :
      (P : K × V → Type 0) (k : K) (m : List (K × V)) {v : V}
      → All P m
      → lookup k m ≡ some v
      → P (k, v)
  unfolding lookup
  All-lookup P k [] a h = cc
  All-lookup P k ((i, w) ∷ m) {v = v} a h = elim (Bool-cases (e.beq i k)) [
    | inl eq ↦ ground (arith, e.beq_iff i k, a)
    | inr ne ↦ All-lookup P k m a.1 (ground (arith, ne))
  ]

  abbrev pub mapped : (K × V → K × V) → K → Option V → Option V
  mapped f k none = none
  mapped f k (some v) = some (f (k, v)).1

  -- A change of values under their keys.
  pub lookup-map :
      (f : K × V → K × V) (k : K) (m : List (K × V))
      → ((x : K × V) → (f x).0 ≡ x.0)
      → lookup k (map f m) ≡ mapped f k (lookup k m)
  unfolding lookup
  lookup-map f k [] h = refl
  lookup-map f k ((i, w) ∷ m) h = rw (h (i, w)) (ground (arith, e.beq_iff i k, lookup-map f k m h))
