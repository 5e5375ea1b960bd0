-- ===== src/Levels.antt =====
-- `std::map<double, V, Compare>`: its entries in the order of the comparator. Keys that neither
-- precede one another are one key, as in the standard library.
use cpp_matching_engine.Prelude.{Bool, List, [], ◌∷◌, Option, none, some, if◌then◌else◌}
use cpp_matching_engine.Double.{Double}
use cpp_matching_engine.Types.{Side, buy, sell}

-- `std::greater<double>` on the bids and `std::less<double>` on the asks.
abbrev pub before : {F : Type 0} ⦃d : Double F⦄ → Side → F → F → Bool
before ⦃d⦄ buy a b = d.lt b a
before ⦃d⦄ sell a b = d.lt a b

module _ {F V : Type 0} ⦃d : Double F⦄ (side : Side) where
  unfoldable pub find : F → List (F × V) → Option V
  find k [] = none
  find k ((j, v) ∷ m) =
      if before side j k then find k m else if before side k j then none else some v

  -- `f(m[k])`, with `fresh` for the value that `operator[]` makes of a key that is missing.
  unfoldable pub update : F → V → (V → V) → List (F × V) → List (F × V)
  update k fresh f [] = (k, f fresh) ∷ []
  update k fresh f ((j, v) ∷ m) =
      if before side j k
      then (j, v) ∷ update k fresh f m
      else if before side k j
      then (k, f fresh) ∷ (j, v) ∷ m
      else (j, f v) ∷ m

  -- `auto it = m.find(k); if (it != m.end()) f(it->second)`
  unfoldable pub adjust : F → (V → V) → List (F × V) → List (F × V)
  adjust k f [] = []
  adjust k f ((j, v) ∷ m) =
      if before side j k
      then (j, v) ∷ adjust k f m
      else if before side k j
      then (j, v) ∷ m
      else (j, f v) ∷ m

  -- `m.erase(it)` at the entry that `find(k)` gives
  unfoldable pub erase : F → List (F × V) → List (F × V)
  erase k [] = []
  erase k ((j, v) ∷ m) =
      if before side j k then (j, v) ∷ erase k m else if before side k j then (j, v) ∷ m else m
