-- ===== src/Prelude/Totals.antt =====
-- Totals over the entries of a map with one entry for each key.
use cpp_matching_engine.Prelude.Tests.{Eq, ◌==◌, Bool-cases, some_injective}
use cpp_matching_engine.Prelude.Lists.{All}
use cpp_matching_engine.Prelude.Map.{Map, find, insert, erase, find-insert, find-erase}
use Prim.Native.Nat.{ℕ, ◌+◌}
use mathlib.Core.Path.{◌≡◌, refl, ap, ◌∙◌, subst}
use mathlib.Core.Logic.{inl, inr}
use mathlib.Core.List.{[], ◌∷◌}
use mathlib.Core.Option.{none, some}
use native.Mathlib.Omega.{arith}

module _ {ℓ} {K V : Type ℓ} ⦃e : Eq K⦄ where
  abbrev pub IsDistinct : Map K V → Type ℓ
  IsDistinct [] = Unit
  IsDistinct ((k, v) ∷ m) = (find k m ≡ none) × IsDistinct m

  pub erase_absent : (k : K) (m : Map K V) → find k m ≡ none → erase k m ≡ m
  unfolding find erase
  erase_absent k [] h = refl
  erase_absent k ((j, w) ∷ m) h = elim (Bool-cases (j == k)) [
    | inl s ↦ let p = (rw s at h) in cc
    | inr s ↦ rw s (ap (λ x. (j, w) ∷ x) (erase_absent k m (rw s at h)))
  ]

  pub IsDistinct-insert : (k : K) (v : V) (m : Map K V) → IsDistinct m → IsDistinct (insert k v m)
  unfolding insert find
  IsDistinct-insert k v [] d = (refl, tt)
  IsDistinct-insert k v ((j, w) ∷ m) d = elim (Bool-cases (j == k)) [
    | inl s ↦ rw s d
    | inr s ↦ rw s (
      find-insert k j v m ∙ ground (arith, d.0, e.same_iff j k, e.same_iff k j),
      IsDistinct-insert k v m d.1,
    )
  ]

  pub IsDistinct-erase : (k : K) (m : Map K V) → IsDistinct m → IsDistinct (erase k m)
  unfolding erase
  IsDistinct-erase k [] d = tt
  IsDistinct-erase k ((j, w) ∷ m) d = elim (Bool-cases (j == k)) [
    | inl s ↦ rw s (IsDistinct-erase k m d.1)
    | inr s ↦ rw s (find-erase k j m ∙ ground (arith, d.0), IsDistinct-erase k m d.1)
  ]

  pub All-insert {κ} :
      (P : V → Type κ) (k : K) (v : V) (m : Map K V)
      → P v
      → All (λ x. P x.1) m
      → All (λ x. P x.1) (insert k v m)
  unfolding insert
  All-insert P k v [] p a = (p, tt)
  All-insert P k v ((j, w) ∷ m) p a = elim (Bool-cases (j == k)) [
    | inl s ↦ rw s (p, a.1)
    | inr s ↦ rw s (a.0, All-insert P k v m p a.1)
  ]

  pub All-erase {κ} :
      (P : V → Type κ) (k : K) (m : Map K V) → All (λ x. P x.1) m → All (λ x. P x.1) (erase k m)
  unfolding erase
  All-erase P k [] a = tt
  All-erase P k ((j, w) ∷ m) a = elim (Bool-cases (j == k)) [
    | inl s ↦ rw s (All-erase P k m a.1)
    | inr s ↦ rw s (a.0, All-erase P k m a.1)
  ]

  pub All-find {κ} :
      (P : V → Type κ) (k : K) (v : V) (m : Map K V) → All (λ x. P x.1) m → find k m ≡ some v → P v
  unfolding find
  All-find P k v [] a h = absurd cc
  All-find P k v ((j, w) ∷ m) a h = elim (Bool-cases (j == k)) [
    | inl s ↦ let p : some w ≡ some v = (rw s at h) in subst P (some_injective p) a.0
    | inr s ↦ All-find P k v m a.1 (rw s at h)
  ]

  module _ (weight : V → ℕ) where
    abbrev pub total : Map K V → ℕ
    total [] = 0
    total ((_, v) ∷ m) = weight v + total m

    pub total-insert_new :
        (k : K) (v : V) (m : Map K V) → find k m ≡ none → total (insert k v m) ≡ total m + weight v
    unfolding find insert
    total-insert_new k v [] h = omega arith
    total-insert_new k v ((j, w) ∷ m) h = elim (Bool-cases (j == k)) [
      | inl s ↦ let p = (rw s at h) in cc
      | inr s ↦ rw s (omega (arith, total-insert_new k v m (rw s at h)))
    ]

    pub total-insert_old :
        (k : K) (v u : V) (m : Map K V)
        → find k m ≡ some u
        → total (insert k v m) + weight u ≡ total m + weight v
    unfolding find insert
    total-insert_old k v u [] h = cc
    total-insert_old k v u ((j, w) ∷ m) h = elim (Bool-cases (j == k)) [
      | inl s ↦
          let p : some w ≡ some u = (rw s at h) in
          let q : w ≡ u = some_injective p in rw s (omega (arith, ap weight q))
      | inr s ↦ rw s (omega (arith, total-insert_old k v u m (rw s at h)))
    ]

    pub total-erase :
        (k : K) (u : V) (m : Map K V)
        → IsDistinct m
        → find k m ≡ some u
        → total (erase k m) + weight u ≡ total m
    unfolding find erase
    total-erase k u [] d h = cc
    total-erase k u ((j, w) ∷ m) d h = elim (Bool-cases (j == k)) [
      | inl s ↦
          let p : some w ≡ some u = (rw s at h) in
          let q : w ≡ u = some_injective p in
          let same : j ≡ k = (e.same_iff j k).0 s in
          let absent : find k m ≡ none = subst (λ x. find x m ≡ none) same d.0 in
          rw (s, erase_absent k m absent) (omega (arith, ap weight q))
      | inr s ↦ rw s (omega (arith, total-erase k u m d.1 (rw s at h)))
    ]
