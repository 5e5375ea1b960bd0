-- ===== src/OrderBook/Depth.antt =====
-- What `bid_depth` and `ask_depth` show of a valid book.
use cpp_matching_engine.Prelude.{
  ℕ, zero, suc, ◌+◌, ◌%◌, ◌≡◌, refl, true, false, [], ◌∷◌, some, take, map, arith, ap, ap₂, sym,
  u64_mod, leb,
}
use cpp_matching_engine.Prelude.Int.{pos}
use cpp_matching_engine.Double.{Double}
use cpp_matching_engine.Types.{Side}
use cpp_matching_engine.OrderBook.{OrderBook, PriceLevel, LevelMap, levels, depth, depth_from}
use cpp_matching_engine.OrderBook.Valid.{AreLevels, IsValid}
use cpp_matching_engine.OrderBook.Sides.{side-AreLevels}
use cpp_matching_engine.PriceTime.{open_qty}

module _ {F : Type 0} ⦃d : Double F⦄ where
  -- A price and the quantity that the orders of its level still have open.
  abbrev pub on_offer : F × PriceLevel F → F × ℕ
  on_offer e = (e.0, open_qty e.1.orders % u64_mod)

  take_none : (j : ℕ) → take {A = F × ℕ} j [] ≡ []
  take_none zero = refl
  take_none (suc j) = refl

  depth_from-take :
      (side : Side) (count n j : ℕ) (m : LevelMap F)
      → n ≡ count + j
      → AreLevels side m
      → depth_from count n m ≡ take j (map on_offer m)
  unfolding depth_from
  depth_from-take side count n j [] h v = sym (take_none j)
  depth_from-take side count n zero ((k, l) ∷ m) h v =
      let stops : leb n count ≡ true = ground arith in rw stops refl
  depth_from-take side count n (suc j) ((k, l) ∷ m) h v =
      let goes_on : leb n count ≡ false = ground arith in
      rw goes_on (
        ap₂ (λ q rest. (k, q) ∷ rest) v.0.totalled
          (depth_from-take side (count + 1) n j m (omega arith) v.3))

  -- On a valid book, the depth of a side to n levels is its first n levels, each with its price
  -- and with what its orders have open, modulo 2^64.
  pub depth_lem :
      (side : Side) (b : OrderBook F) (n : ℕ)
      → IsValid b
      → depth side b (pos n) ≡ some (take n (map on_offer (levels side b)))
  unfolding depth
  depth_lem side b n v =
      ap (λ r. some r)
        (depth_from-take side 0 n n (levels side b) (omega arith) (side-AreLevels side b v))
