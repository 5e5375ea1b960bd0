-- ===== src/Prelude/Lists.antt =====
-- Lists measured by native numbers, under the library's names.
use Prim.Native.Nat.{ℕ, zero, suc, ◌+◌, ◌-◌, ◌<◌, min}
use mathlib.Core.Path.{◌≡◌, refl, ap, ◌∙◌}
use mathlib.Core.Logic.{◌≢◌}
use mathlib.Core.Option.{Option, none, some}
use mathlib.Core.List.{List, [], ◌∷◌, ◌++◌}
use native.Mathlib.Omega.{arith}

module _ {ℓ} {A : Type ℓ} where
  abbrev pub length : List A → ℕ
  length [] = 0
  length (x ∷ xs) = suc (length xs)

  abbrev pub take : ℕ → List A → List A
  take zero xs = []
  take (suc n) [] = []
  take (suc n) (x ∷ xs) = x ∷ take n xs

  abbrev pub drop : ℕ → List A → List A
  drop zero xs = xs
  drop (suc n) [] = []
  drop (suc n) (x ∷ xs) = drop n xs

  abbrev pub replicate : ℕ → A → List A
  replicate zero a = []
  replicate (suc n) a = a ∷ replicate n a

  abbrev pub get_elem? : List A → ℕ → Option A
  get_elem? [] i = none
  get_elem? (x ∷ xs) zero = some x
  get_elem? (x ∷ xs) (suc i) = get_elem? xs i

  -- The list with `a` at an index; as it was if the index is out of range.
  abbrev pub set : ℕ → A → List A → List A
  set i a [] = []
  set zero a (x ∷ xs) = a ∷ xs
  set (suc i) a (x ∷ xs) = x ∷ set i a xs

  pub length-set : (i : ℕ) (a : A) (xs : List A) → length (set i a xs) ≡ length xs
  length-set i a [] = omega arith
  length-set zero a (x ∷ xs) = omega arith
  length-set (suc i) a (x ∷ xs) = omega (arith, length-set i a xs)

  pub get_elem?-set :
      (i : ℕ) (a : A) (xs : List A) → i < length xs → get_elem? (set i a xs) i ≡ some a
  get_elem?-set i a [] h = absurd (omega arith)
  get_elem?-set zero a (x ∷ xs) h = refl
  get_elem?-set (suc i) a (x ∷ xs) h = get_elem?-set i a xs (omega arith)

  pub get_elem?-set_other :
      (i j : ℕ) (a : A) (xs : List A) → i ≢ j → get_elem? (set i a xs) j ≡ get_elem? xs j
  get_elem?-set_other i j a [] h = refl
  get_elem?-set_other zero zero a (x ∷ xs) h = absurd (h refl)
  get_elem?-set_other zero (suc j) a (x ∷ xs) h = refl
  get_elem?-set_other (suc i) zero a (x ∷ xs) h = refl
  get_elem?-set_other (suc i) (suc j) a (x ∷ xs) h =
      get_elem?-set_other i j a xs (λ e. h (ap suc e))

  pub length-replicate : (n : ℕ) (a : A) → length (replicate n a) ≡ n
  length-replicate zero a = refl
  length-replicate (suc n) a = omega (arith, length-replicate n a)

  pub length-append : (xs ys : List A) → length (xs ++ ys) ≡ length xs + length ys
  length-append [] ys = omega arith
  length-append (x ∷ xs) ys = omega (arith, length-append xs ys)

  pub length-take : (n : ℕ) (xs : List A) → length (take n xs) ≡ min n (length xs)
  length-take zero xs = omega arith
  length-take (suc n) [] = omega arith
  length-take (suc n) (x ∷ xs) = omega (arith, length-take n xs)

  pub length-drop : (n : ℕ) (xs : List A) → length (drop n xs) ≡ length xs - n
  length-drop zero xs = omega arith
  length-drop (suc n) [] = omega arith
  length-drop (suc n) (x ∷ xs) = omega (arith, length-drop n xs)

  pub drop-drop : (n k : ℕ) (xs : List A) → drop k (drop n xs) ≡ drop (n + k) xs
  drop-drop zero k xs = let count : k ≡ 0 + k = omega arith in ap (λ m. drop m xs) count
  drop-drop (suc n) zero [] =
      let count : suc n ≡ suc n + 0 = omega arith in ap (λ m. drop m []) count
  drop-drop (suc n) (suc k) [] =
      let count : suc (suc (n + k)) ≡ suc n + suc k = omega arith in ap (λ m. drop m []) count
  drop-drop (suc n) k (x ∷ xs) =
      let count : suc (n + k) ≡ suc n + k = omega arith in
      drop-drop n k xs ∙ ap (λ m. drop m (x ∷ xs)) count

  pub drop-append : (xs ys : List A) → drop (length xs) (xs ++ ys) ≡ ys
  drop-append [] ys = refl
  drop-append (x ∷ xs) ys = drop-append xs ys

  pub take-append : (xs ys : List A) → take (length xs) (xs ++ ys) ≡ xs
  take-append [] ys = refl
  take-append (x ∷ xs) ys = ap (λ r. x ∷ r) (take-append xs ys)

  abbrev pub All {κ} : (A → Type κ) → List A → Type κ
  All P [] = Unit
  All P (x ∷ xs) = P x × All P xs

  pub All-append {κ} : (P : A → Type κ) (xs ys : List A) → All P xs → All P ys → All P (xs ++ ys)
  All-append P [] ys h k = k
  All-append P (x ∷ xs) ys h k = (h.0, All-append P xs ys h.1 k)

  pub All-impl {κ μ} :
      {P : A → Type κ} {Q : A → Type μ} (xs : List A) → ((x : A) → P x → Q x) → All P xs → All Q xs
  All-impl [] f h = tt
  All-impl (x ∷ xs) f h = (f x h.0, All-impl xs f h.1)

  pub All-both {κ μ} :
      (P : A → Type κ) (Q : A → Type μ) (xs : List A)
      → All P xs
      → All Q xs
      → All (λ x. P x × Q x) xs
  All-both P Q [] h k = tt
  All-both P Q (x ∷ xs) h k = ((h.0, k.0), All-both P Q xs h.1 k.1)

abbrev pub sum : List ℕ → ℕ
sum [] = 0
sum (x ∷ xs) = x + sum xs

pub sum-append : (xs ys : List ℕ) → sum (xs ++ ys) ≡ sum xs + sum ys
sum-append [] ys = omega arith
sum-append (x ∷ xs) ys = omega (arith, sum-append xs ys)
