-- ===== src/Prelude/Map.antt =====
-- `std::unordered_map`: an association list with one entry for each key. The order of the entries is
-- not observed by the code, which sorts what it lists.
use cpp_matching_engine.Prelude.Tests.{Eq, ◌==◌, if◌then◌else◌}
use mathlib.Core.Path.{◌≡◌, refl}
use mathlib.Core.Logic.{◌≢◌}
use mathlib.Core.Bool.{true, false}
use mathlib.Core.List.{List, [], ◌∷◌}
use mathlib.Core.Option.{Option, none, some}
use native.Mathlib.Omega.{arith}

abbrev pub Map {ℓ} : Type ℓ → Type ℓ → Type ℓ
Map K V = List (K × V)

pub eq_refl {ℓ} : {K : Type ℓ} ⦃e : Eq K⦄ (k : K) → (k == k) ≡ true
eq_refl ⦃e⦄ k = (e.same_iff k k).1 refl

pub eq_ne {ℓ} : {K : Type ℓ} ⦃e : Eq K⦄ (k q : K) → k ≢ q → (k == q) ≡ false
eq_ne ⦃e⦄ k q h = ground (arith, e.same_iff k q)

module _ {ℓ} {K V : Type ℓ} ⦃e : Eq K⦄ where
  unfoldable pub find : K → Map K V → Option V
  find k [] = none
  find k ((j, v) ∷ m) = if j == k then some v else find k m

  -- `m[k] = v`
  unfoldable pub insert : K → V → Map K V → Map K V
  insert k v [] = (k, v) ∷ []
  insert k v ((j, w) ∷ m) = if j == k then (j, v) ∷ m else (j, w) ∷ insert k v m

  unfoldable pub erase : K → Map K V → Map K V
  erase k [] = []
  erase k ((j, w) ∷ m) = if j == k then erase k m else (j, w) ∷ erase k m

  pub find-insert :
      (k q : K) (v : V) (m : Map K V)
      → find q (insert k v m) ≡ (if k == q then some v else find q m)
  unfolding find insert
  find-insert k q v [] = refl
  find-insert k q v ((j, w) ∷ m) =
      ground (arith, e.same_iff j k, e.same_iff k q, e.same_iff j q, find-insert k q v m)

  pub find-erase :
      (k q : K) (m : Map K V) → find q (erase k m) ≡ (if k == q then none else find q m)
  unfolding find erase
  find-erase k q [] = ground arith
  find-erase k q ((j, w) ∷ m) =
      ground (arith, e.same_iff j k, e.same_iff k q, e.same_iff j q, find-erase k q m)
