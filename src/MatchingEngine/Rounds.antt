-- ===== src/MatchingEngine/Rounds.antt =====
-- A round of the outer loop over a side of the book: how it begins, and what it leaves.
use cpp_matching_engine.Prelude.{
  ℕ, suc, ◌<◌, ◌≡◌, ◌⊎◌, inl, inr, refl, Bool, true, false, List, [], ◌∷◌, ◌++◌, arith,
  if◌then◌else◌, nat_eq, All, Bool-cases, List-cases, some, ap, ◌∙◌, sym,
}
use cpp_matching_engine.Double.{Double, IsOrdered}
use cpp_matching_engine.Types.{Side, buy, sell, opposite, Order, remaining}
use cpp_matching_engine.OrderBook.{PriceLevel, LevelMap, levels, is_empty}
use cpp_matching_engine.OrderBook.Valid.{queue, IsResting, AreLevels}
use cpp_matching_engine.OrderBook.Sides.{side_queue}
use cpp_matching_engine.MatchingEngine.{Match, match_level, match_side, drop_best, drop_empty}
use cpp_matching_engine.MatchingEngine.Sweep.{IsSized, sweep, sweep_stopped}
use cpp_matching_engine.MatchingEngine.Filling.{Fits}
use cpp_matching_engine.MatchingEngine.Loops.{LevelDone}

module _ {F : Type 0} where
  drop_best-parts :
      (side : Side) (k : F) (l : PriceLevel F) (m : LevelMap F) (s : Match F)
      → levels side s.book ≡ (k, l) ∷ m
      → let t = drop_best side s in
        (levels side t.book ≡ (if is_empty l.orders then m else (k, l) ∷ m))
        × (levels (opposite side) t.book ≡ levels (opposite side) s.book)
        × (t.book.order_index ≡ s.book.order_index)
        × (t.order ≡ s.order)
        × (t.engine ≡ s.engine)
  unfolding drop_best drop_empty
  drop_best-parts buy k l m s e = (rw (e, drop_empty), refl, refl, refl, refl)
  drop_best-parts sell k l m s e = (rw (e, drop_empty), refl, refl, refl, refl)

  drop_queue :
      (k : F) (l : PriceLevel F) (m : LevelMap F)
      → queue (if is_empty l.orders then m else (k, l) ∷ m) ≡ l.orders ++ queue m
  unfolding queue
  drop_queue k l m = elim (List-cases l.orders) [ inl e ↦ rw e | inr (r, rs, e) ↦ rw e ]

module _ {F : Type 0} ⦃d : Double F⦄ (ord : IsOrdered F) (now_ns : ℕ → ℕ) (side : Side)
    (stop : F → Bool) where
  -- A loop over a side has swept its queue, and left the side sound and the other as it was.
  pub record SideDone (s t : Match F) : Type 0 where
    pub sound : AreLevels side (levels side t.book)
    pub other : levels (opposite side) t.book ≡ levels (opposite side) s.book
    pub sized : IsSized t.order
    pub swept :
        sweep now_ns stop s.order (side_queue side s.book) s.engine
        ≡ record { order = t.order; queue = side_queue side t.book; engine = t.engine }
    pub fits :
        (r : List (Order F))
        → Fits s.book.order_index (side_queue side s.book) r
        → Fits t.book.order_index (side_queue side t.book) r

  pub stay_SideDone :
      (s : Match F)
      → AreLevels side (levels side s.book)
      → IsSized s.order
      → sweep now_ns stop s.order (side_queue side s.book) s.engine
        ≡ record { order = s.order; queue = side_queue side s.book; engine = s.engine }
      → SideDone s s
  stay_SideDone s v sized e = record {
    sound = v;
    other = refl;
    sized = sized;
    swept = e;
    fits = λ r f. f;
  }

  abbrev pub SideRun : ℕ → ℕ → Match F → Type 0
  SideRun inner fuel s =
      (t : Match F) × (match_side now_ns inner fuel side stop s ≡ some t) × SideDone s t

  -- The ways in which a round of the outer loop begins.
  module _ (inner fuel : ℕ) (s : Match F) where
    pub match_side_empty :
        levels side s.book ≡ [] → match_side now_ns inner (suc fuel) side stop s ≡ some s
    unfolding match_side
    match_side_empty e = rw (match_side, e)

    pub match_side_idle :
        remaining s.order ≡ 0 → match_side now_ns inner (suc fuel) side stop s ≡ some s
    unfolding match_side
    match_side_idle e = ground arith

    module _ (k : F) (l : PriceLevel F) (m : LevelMap F)
        (at : levels side s.book ≡ (k, l) ∷ m) where
      pub match_side_halts :
          stop l.price ≡ true → match_side now_ns inner (suc fuel) side stop s ≡ some s
      unfolding match_side
      match_side_halts e = rw (match_side, at) (ground arith)

      pub match_side_go :
          {t : Match F}
          → stop l.price ≡ false
          → 0 < remaining s.order
          → match_level now_ns inner side l.price s ≡ some t
          → match_side now_ns inner (suc fuel) side stop s
            ≡ match_side now_ns inner fuel side stop (drop_best side t)
      unfolding match_side
      match_side_go e h run = rw (match_side, at) (ground arith)

  -- The match after a level is worked off and dropped if it is empty.
  pub record Dropped (m : LevelMap F) (s u : Match F) : Type 0 where
    pub sound : AreLevels side (levels side u.book)
    pub sized : IsSized u.order
    pub shorter : (remaining u.order ≡ 0) ⊎ (levels side u.book ≡ m)
    pub onward : (v : Match F) → SideDone u v → SideDone s v

  pub drop-Dropped :
      (k : F) (l : PriceLevel F) (m : LevelMap F) (s t : Match F)
      → levels side s.book ≡ (k, l) ∷ m
      → AreLevels side ((k, l) ∷ m)
      → stop k ≡ false
      → LevelDone ord now_ns side k l m s t
      → Dropped m s (drop_best side t)
  unfolding queue
  drop-Dropped k l m s t held v go done =
      let u = drop_best side t in
      let (at', other, index, same_order, same_engine) =
        drop_best-parts side k done.level m t done.at_best in
      let q : side_queue side u.book ≡ done.level.orders ++ queue m =
        ap queue at' ∙ drop_queue k done.level m in
      record {
        sound = rw at' (elim (Bool-cases (is_empty done.level.orders)) [
          | inl e ↦ rw e v.3
          | inr e ↦ rw e (done.sound, e, v.2, v.3)
        ]);
        sized = rw same_order done.sized;
        shorter =
            rw (at', same_order) (elim done.ended [ inl e ↦ inl e | inr e ↦ inr (rw e refl) ]);
        onward = λ w after. record {
          sound = after.sound;
          other = after.other ∙ other ∙ done.other;
          sized = after.sized;
          swept =
              rw held
                (done.swept stop (queue m) go ∙ (rw (same_order, q, same_engine) at after.swept));
          fits = λ r f. after.fits r (rw (index, q) (done.fits (queue m) r (rw held at f)));
        };
      }

  pub swept_empty :
      (s : Match F)
      → levels side s.book ≡ []
      → sweep now_ns stop s.order (side_queue side s.book) s.engine
        ≡ record { order = s.order; queue = side_queue side s.book; engine = s.engine }
  unfolding queue sweep
  swept_empty s e = rw e

  pub swept_stop :
      (s : Match F) (k : F) (l : PriceLevel F) (m : LevelMap F)
      → levels side s.book ≡ (k, l) ∷ m
      → AreLevels side ((k, l) ∷ m)
      → stop l.price ≡ true
      → sweep now_ns stop s.order (side_queue side s.book) s.engine
        ≡ record { order = s.order; queue = side_queue side s.book; engine = s.engine }
  unfolding queue
  swept_stop s k l m e v at_stop = elim (List-cases l.orders) [
    | inl none_left ↦ let p = (rw none_left at v.1) in cc
    | inr (r, rs, some_left) ↦
        let resting : All (IsResting side k) (r ∷ rs) = rw some_left at v.0.resting in
        rw (e, queue, some_left)
          (sweep_stopped now_ns stop s.order r (rs ++ queue m) s.engine
            (ap stop (resting.0.at_price ∙ sym v.0.keyed) ∙ at_stop))
  ]
