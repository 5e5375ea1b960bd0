-- ===== src/MatchingEngine/Loops.antt =====
-- The inner matching loop of matching/matching_engine.cpp, against `sweep`.
use cpp_matching_engine.Prelude.{
  ℕ, zero, suc, ◌<◌, ◌≡◌, ◌⊎◌, inl, inr, refl, Bool, false, List, [], ◌∷◌, ◌++◌, arith, min, nat_eq,
  All, List-cases, length, some, ap, ◌∙◌, zero-cases,
}
use cpp_matching_engine.Double.{Double, IsOrdered}
use cpp_matching_engine.Types.{Side, opposite, Order, remaining}
use cpp_matching_engine.OrderBook.{PriceLevel, LevelMap, levels}
use cpp_matching_engine.OrderBook.Valid.{IsResting, IsLevel}
use cpp_matching_engine.PriceTime.{Queue}
use cpp_matching_engine.MatchingEngine.{
  Match, fill_order, execute_fill, match_level, best_orders, record_fill,
}
use cpp_matching_engine.MatchingEngine.Sweep.{IsSized, fill_order-remaining, sweep, sweep_step_at}
use cpp_matching_engine.MatchingEngine.Filling.{
  Fits, filled_match, execute_fill-eq, left_over-append, filled_level, fill_book-parts,
  filled_level-IsLevel, filled-Fits, resting-IsSized,
}

module _ {F : Type 0} ⦃d : Double F⦄ (ord : IsOrdered F) (now_ns : ℕ → ℕ) (side : Side) where
  -- What a loop over the best level has made of the match `s`, as far as the callers see it.
  pub record LevelDone (k : F) (l : PriceLevel F) (m : LevelMap F) (s t : Match F) : Type 0 where
    pub level : PriceLevel F
    pub at_best : levels side t.book ≡ (k, level) ∷ m
    pub other : levels (opposite side) t.book ≡ levels (opposite side) s.book
    pub sound : IsLevel side k level
    pub sized : IsSized t.order
    pub swept :
        (stop : F → Bool) (q : Queue F)
        → stop k ≡ false
        → sweep now_ns stop s.order (l.orders ++ q) s.engine
          ≡ sweep now_ns stop t.order (level.orders ++ q) t.engine
    pub fits :
        (q r : Queue F)
        → Fits s.book.order_index (l.orders ++ q) r
        → Fits t.book.order_index (level.orders ++ q) r
    pub ended : (remaining t.order ≡ 0) ⊎ (level.orders ≡ [])

  step_LevelDone :
      (k : F) (l : PriceLevel F) (m : LevelMap F) (s t : Match F) (r : Order F)
      (rs : List (Order F))
      → levels side s.book ≡ (k, l) ∷ m
      → IsLevel side k l
      → IsSized s.order
      → l.orders ≡ r ∷ rs
      → 0 < remaining s.order
      → let n = min (remaining s.order) (remaining r) in
        let l' = filled_level n (fill_order n r) rs l in
        LevelDone k l' m (filled_match now_ns side s r k) t → LevelDone k l m s t
  step_LevelDone k l m s t r rs at v sized e h rest =
      let n = min (remaining s.order) (remaining r) in
      let o' = fill_order n s.order in
      let r' = fill_order n r in
      let resting : All (IsResting side k) (r ∷ rs) = rw e at v.resting in
      let (at', other, index) = fill_book-parts ord side k n r' r rs l m s.book at e in
      record {
        level = rest.level;
        at_best = rest.at_best;
        other = rest.other ∙ other;
        sound = rest.sound;
        sized = rest.sized;
        swept = λ stop q go. rw e (
            sweep_step_at now_ns stop k s.order r (rs ++ q) s.engine resting.0.at_price sized
              (resting-IsSized side k r resting.0) h go
            ∙ ap (λ x. sweep now_ns stop o' x (record_fill now_ns o' r' n k s.engine))
                (left_over-append r' rs q)
            ∙ rest.swept stop q go);
        fits = λ q others f.
            rest.fits q others
              (rw index (filled-Fits n r rs q others s.book.order_index (rw e at f)));
        ended = rest.ended;
      }

  -- The three ways in which a round of the inner loop begins.
  module _ (k : F) (l : PriceLevel F) (m : LevelMap F) (s : Match F)
      (at : levels side s.book ≡ (k, l) ∷ m) (fuel : ℕ) where
    match_level_empty : l.orders ≡ [] → match_level now_ns (suc fuel) side k s ≡ some s
    unfolding match_level best_orders
    match_level_empty e = rw (match_level, at, best_orders, e)

    match_level_idle : remaining s.order ≡ 0 → match_level now_ns (suc fuel) side k s ≡ some s
    unfolding match_level best_orders
    match_level_idle e = ground arith

    match_level_fill :
        (r : Order F) (rs : List (Order F))
        → l.orders ≡ r ∷ rs
        → 0 < remaining s.order
        → match_level now_ns (suc fuel) side k s
          ≡ match_level now_ns fuel side k (execute_fill now_ns r k s)
    unfolding match_level best_orders
    match_level_fill r rs e h = rw (match_level, at, best_orders, e) (ground arith)

  -- A loop that ends where it stands.
  stay_LevelDone :
      (k : F) (l : PriceLevel F) (m : LevelMap F) (s : Match F)
      → levels side s.book ≡ (k, l) ∷ m
      → IsLevel side k l
      → IsSized s.order
      → (remaining s.order ≡ 0) ⊎ (l.orders ≡ [])
      → LevelDone k l m s s
  stay_LevelDone k l m s at v sized ended = record {
    level = l;
    at_best = at;
    other = refl;
    sound = v;
    sized = sized;
    swept = λ stop q go. refl;
    fits = λ q r f. f;
    ended = ended;
  }

  -- What the inner loop owes: an end, and the sweep of the level.
  abbrev pub LevelRun : ℕ → F → PriceLevel F → LevelMap F → Match F → Type 0
  LevelRun fuel k l m s =
      (t : Match F) × (match_level now_ns fuel side k s ≡ some t) × LevelDone k l m s t

  -- The match after the first fill, with what the level then holds.
  record Filled (k : F) (l : PriceLevel F) (m : LevelMap F) (s s' : Match F) : Type 0 where
    level : PriceLevel F
    at_best : levels side s'.book ≡ (k, level) ∷ m
    sound : IsLevel side k level
    sized : IsSized s'.order
    shorter : (0 < remaining s'.order) → length level.orders < length l.orders
    onward : (t : Match F) → LevelDone k level m s' t → LevelDone k l m s t

  fill-Filled :
      (k : F) (l : PriceLevel F) (m : LevelMap F) (s : Match F) (r : Order F) (rs : List (Order F))
      → levels side s.book ≡ (k, l) ∷ m
      → IsLevel side k l
      → IsSized s.order
      → l.orders ≡ r ∷ rs
      → 0 < remaining s.order
      → Filled k l m s (execute_fill now_ns r k s)
  fill-Filled k l m s r rs at v sized e h =
      let n = min (remaining s.order) (remaining r) in
      let r' = fill_order n r in
      let resting : All (IsResting side k) (r ∷ rs) = rw e at v.resting in
      let sized_r = resting-IsSized side k r resting.0 in
      let (small, left, _, _) = fill_order-remaining n s.order sized (omega arith) in
      let (_, left_r, _, _) = fill_order-remaining n r sized_r (omega arith) in
      let (at', _, _) = fill_book-parts ord side k n r' r rs l m s.book at e in
      rw (execute_fill-eq now_ns side s r k resting.0.on_side) (record {
        level = filled_level n r' rs l;
        at_best = at';
        sound = filled_level-IsLevel side k n r rs l v e (omega arith);
        sized = small;
        shorter = λ more. ground (arith, ap length e, left, left_r);
        onward = λ t done. step_LevelDone k l m s t r rs at v sized e h done;
      })

  -- A round after a fill: at once done if the order is, and else on a shorter level.
  next_run :
      (fuel : ℕ) (k : F) (m : LevelMap F) (s : Match F) (l : PriceLevel F)
      → levels side s.book ≡ (k, l) ∷ m
      → IsLevel side k l
      → IsSized s.order
      → 0 < fuel
      → ((0 < remaining s.order) → length l.orders < fuel)
      → ((length l.orders < fuel) → LevelRun fuel k l m s)
      → LevelRun fuel k l m s
  next_run zero k m s l at v sized pos short go = absurd (omega arith)
  next_run (suc fuel) k m s l at v sized pos short go = elim (zero-cases (remaining s.order)) [
    | inl e ↦ (s, match_level_idle k l m s at fuel e, stay_LevelDone k l m s at v sized (inl e))
    | inr more ↦ go (short more)
  ]

  pub match_level-LevelRun :
      (fuel : ℕ) (k : F) (l : PriceLevel F) (m : LevelMap F) (s : Match F)
      → levels side s.book ≡ (k, l) ∷ m
      → IsLevel side k l
      → IsSized s.order
      → length l.orders < fuel
      → LevelRun fuel k l m s
  match_level-LevelRun zero k l m s at v sized h = absurd (omega arith)
  match_level-LevelRun (suc fuel) k l m s at v sized h = elim (zero-cases (remaining s.order)) [
    | inl e ↦ (s, match_level_idle k l m s at fuel e, stay_LevelDone k l m s at v sized (inl e))
    | inr more ↦ elim (List-cases l.orders) [
      | inl e ↦ (s, match_level_empty k l m s at fuel e, stay_LevelDone k l m s at v sized (inr e))
      | inr (r, rs, e) ↦
          let f = fill-Filled k l m s r rs at v sized e more in
          let (t, run, done) =
            next_run fuel k m (execute_fill now_ns r k s) f.level f.at_best f.sound f.sized
              (omega (arith, ap length e)) (λ p. omega (arith, f.shorter p))
              (match_level-LevelRun fuel k f.level m (execute_fill now_ns r k s) f.at_best f.sound
                f.sized) in
          (t, match_level_fill k l m s at fuel r rs e more ∙ run, f.onward t done)
    ]
  ]
