-- ===== src/Prelude/Dict.antt =====
-- The `Map` of JavaScript: entries in the order in which their keys were first set.
use Prim.Native.Nat.{◌+◌, ◌≤◌}
use mathlib.Core.Path.{◌≡◌, refl}
use mathlib.Core.Logic.{◌≢◌}
use mathlib.Core.Option.{Option, none, some}
use mathlib.Core.List.{List, [], ◌∷◌}
use native.Mathlib.Omega.{arith}
use unseen_fyi.Prelude.Tests.{if◌then◌else◌}
use unseen_fyi.Prelude.Lists.{length}
use unseen_fyi.Prelude.Eq.{Eq}

abbrev pub Dict {ℓ κ} : Type ℓ → Type κ → Type (ℓ ⊔ κ)
Dict K V = List (K × V)

module _ {ℓ κ} {K : Type ℓ} {V : Type κ} ⦃e : Eq K⦄ where
  -- m.get(k)
  unfoldable pub get : Dict K V → K → Option V
  get [] k = none
  get ((j, v) ∷ m) k = if e.beq j k then some v else get m k

  -- m.set(k, v): a key that is there keeps its place.
  unfoldable pub set : Dict K V → K → V → Dict K V
  set [] k v = (k, v) ∷ []
  set ((j, w) ∷ m) k v = if e.beq j k then (j, v) ∷ m else (j, w) ∷ set m k v

  -- m.delete(k)
  unfoldable pub delete : Dict K V → K → Dict K V
  delete [] k = []
  delete ((j, w) ∷ m) k = let rest = delete m k in if e.beq j k then rest else (j, w) ∷ rest

  pub get-set :
      (m : Dict K V) (k j : K) (v : V) → get (set m k v) j ≡ (if e.beq k j then some v else get m j)
  unfolding get set
  get-set [] k j v = refl
  get-set ((i, w) ∷ m) k j v =
      ground (arith, e.beq_iff i k, e.beq_iff i j, e.beq_iff k j, get-set m k j v)

  pub get-delete :
      (m : Dict K V) (k j : K) → get (delete m k) j ≡ (if e.beq k j then none else get m j)
  unfolding get delete
  get-delete [] k j = ground arith
  get-delete ((i, w) ∷ m) k j =
      ground (arith, e.beq_iff i k, e.beq_iff i j, e.beq_iff k j, get-delete m k j)

  pub length-set_new : (m : Dict K V) (k : K) (v : V) → length (set m k v) ≤ length m + 1
  unfolding set
  length-set_new [] k v = omega arith
  length-set_new ((j, w) ∷ m) k v = ground (arith, length-set_new m k v)

  pub length-set_old :
      (m : Dict K V) (k : K) (v : V) → get m k ≢ none → length (set m k v) ≡ length m
  unfolding get set
  length-set_old [] k v h = absurd (h refl)
  length-set_old ((j, w) ∷ m) k v h = ground (arith, length-set_old m k v)

  pub length-delete : (m : Dict K V) (k : K) → length (delete m k) ≤ length m
  unfolding delete
  length-delete [] k = omega arith
  length-delete ((j, w) ∷ m) k = ground (arith, length-delete m k)
