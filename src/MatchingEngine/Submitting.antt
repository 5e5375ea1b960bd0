-- ===== src/MatchingEngine/Submitting.antt =====
-- `submit_order` as a step on the two queues of the book.
use cpp_matching_engine.Prelude.{
  ℕ, ◌≡◌, refl, Bool, not, ◌&&◌, [], ◌∷◌, if◌then◌else◌, ltb, nat_eq, All, All-append, All-impl,
  add64, some, subst,
}
use cpp_matching_engine.Double.{Double, IsOrdered}
use cpp_matching_engine.Types.{
  Side, buy, sell, opposite, Order, OrderType, limit, market, new, cancelled, TimeInForce, gtc,
  is_fok, remaining,
}
use cpp_matching_engine.OrderBook.{LevelMap, levels}
use cpp_matching_engine.OrderBook.Valid.{queue, AreLevels, IsValid}
use cpp_matching_engine.OrderBook.Sides.{
  side_queue, side-AreLevels, side_unique, side_indexed, rebuild-IsValid,
}
use cpp_matching_engine.PriceTime.{Queue, enqueue}
use cpp_matching_engine.MatchingEngine.{MatchingEngine, Match, match_side, level_fuel, stop_test}
use cpp_matching_engine.MatchingEngine.Sweep.{Sweep, IsSized, IsOpen, sweep}
use cpp_matching_engine.MatchingEngine.Trading.{Trades, sweep-Trades}
use cpp_matching_engine.MatchingEngine.Sides.{match_side_ends}

-- The queues of the order's own side and of the other, with the order and the engine.
pub record Outcome (F : Type 0) : Type 0 where
  pub order : Order F
  pub own : Queue F
  pub facing : Queue F
  pub engine : MatchingEngine F

module _ {F : Type 0} ⦃d : Double F⦄ where
  abbrev pub kill : Order F → Order F
  kill o = record o { status = cancelled }

  -- What becomes of an order that the sweep left open.
  abbrev pub leave : OrderType → TimeInForce → Order F → Queue F → Order F × Queue F
  leave market _ o own = (kill o, own)
  leave limit gtc o own = (o, enqueue o.side o own)
  leave limit _ o own = (kill o, own)

  abbrev pub settle : OrderType → TimeInForce → Sweep F → Queue F → Outcome F
  settle type tif t own =
      let (o, own') =
        if ltb 0 (remaining t.order) then leave type tif t.order own else (t.order, own) in
      record { order = o; own = own'; facing = t.queue; engine = t.engine }

  -- The order and the engine as the matching finds them.
  abbrev pub accepted : Order F → Order F
  accepted o = record o { status = new }

  abbrev pub counted : MatchingEngine F → MatchingEngine F
  counted e = record e { orders_processed = add64 e.orders_processed 1 }

  -- A submission on queues: a fill-or-kill order that cannot be filled is killed; any other sweeps
  -- the facing queue within its limit, and what is left of it is posted or killed.
  abbrev pub submit_spec :
      (ℕ → ℕ) → MatchingEngine F → Order F → Queue F → Queue F → Bool → Outcome F
  submit_spec now_ns e o own facing fillable =
      let swept = sweep now_ns (stop_test o.type o.side o.price) (accepted o) facing (counted e) in
      if is_fok o.tif && not fillable
      then record { order = kill o; own = own; facing = facing; engine = counted e }
      else settle o.type o.tif swept own

  -- What a match says of the queues, for an order of `side`.
  abbrev pub outcome : Side → Match F → Outcome F
  outcome side t = record {
    order = t.order;
    own = side_queue side t.book;
    facing = side_queue (opposite side) t.book;
    engine = t.engine;
  }

opposite_twice : (side : Side) → opposite (opposite side) ≡ side
opposite_twice buy = refl
opposite_twice sell = refl

module _ {F : Type 0} ⦃d : Double F⦄ where
  pub queue-IsOpen : (side : Side) (m : LevelMap F) → AreLevels side m → All IsOpen (queue m)
  unfolding queue
  queue-IsOpen side [] v = tt
  queue-IsOpen side ((k, l) ∷ m) v =
      All-append _ l.orders (queue m)
        (All-impl l.orders (λ o r. record { filled_lt = r.is_open; fits = r.fits }) v.0.resting)
        (queue-IsOpen side m v.3)

module _ {F : Type 0} ⦃d : Double F⦄ (ord : IsOrdered F) (now_ns : ℕ → ℕ) (stop : F → Bool) where
  -- The match after a loop over the side that faces `side`.
  pub record Matched (side : Side) (s t : Match F) : Type 0 where
    pub valid : IsValid t.book
    pub own : levels side t.book ≡ levels side s.book
    pub swept :
        sweep now_ns stop s.order (side_queue (opposite side) s.book) s.engine
        ≡ record { order = t.order; queue = side_queue (opposite side) t.book; engine = t.engine }
    pub trades :
        Trades now_ns stop s.order
          (side_queue (opposite side) s.book)
          s.engine
          (record { order = t.order; queue = side_queue (opposite side) t.book; engine = t.engine })

  pub match_run :
      (side : Side) (s : Match F)
      → IsValid s.book
      → IsSized s.order
      → let fuel = level_fuel (levels (opposite side) s.book) in
        (t : Match F) × (match_side now_ns fuel fuel (opposite side) stop s ≡ some t)
        × Matched side s t
  match_run side s v sized =
      let facing = opposite side in
      let levels_sound = side-AreLevels facing s.book v in
      let (t, run, done) = match_side_ends ord now_ns facing stop s levels_sound sized in
      let trades =
        sweep-Trades now_ns stop s.order (side_queue facing s.book) s.engine sized
          (queue-IsOpen facing (levels facing s.book) levels_sound) in
      let fits =
        done.fits (side_queue (opposite facing) s.book)
          (λ id. (side_unique facing s.book id v, side_indexed facing s.book id v)) in
      (
        t,
        run,
        record {
          valid = rebuild-IsValid facing s.book t.book v done.sound done.other fits;
          own = subst (λ x. levels x t.book ≡ levels x s.book) (opposite_twice side) done.other;
          swept = done.swept;
          trades = subst (Trades now_ns stop s.order _ s.engine) done.swept trades;
        },
      )
