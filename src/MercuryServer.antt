-- ===== src/MercuryServer.antt =====
-- networking/mercury_server.cpp: a tick of the server's loop. The objects of the pool, the random
-- draw, and the orders that the pops of the tick take from the external queue, are inputs.
pub mod Submissions
pub mod Ids
pub mod Issuing
pub mod Ticks
pub mod Starting
use cpp_matching_engine.Prelude.{
  ℕ, List, [], ◌∷◌, Option, none, some, ◌>>=◌, add64, nat_eq, list_eq,
}
use cpp_matching_engine.Double.{Double}
use cpp_matching_engine.Types.{Order}
use cpp_matching_engine.Exchange.{Exchange, new_exchange, add_symbol, get_book, submit_order}
use cpp_matching_engine.Traders.MarketMaker
use cpp_matching_engine.Traders.MarketMaker.{MarketMaker, new_market_maker}
use cpp_matching_engine.Traders.Random
use cpp_matching_engine.Traders.Random.{RandomTrader, Draw, new_random_trader}

-- "AAPL"
abbrev pub server_symbol : List ℕ
server_symbol = 65 ∷ 65 ∷ 80 ∷ 76 ∷ []

pub record MercuryServer (F : Type 0) : Type 0 where
  pub ex : Exchange F
  pub mm : MarketMaker F
  pub noise : RandomTrader F
  pub tick : ℕ

-- What a tick takes from outside.
pub record Inputs (F : Type 0) : Type 0 where
  pub mm_acquired : ℕ → Order F
  pub noise_acquired : Order F
  pub draw : Draw F
  pub external : List (Order F)

module _ {F : Type 0} ⦃d : Double F⦄ where
  unfoldable pub new_mercury_server : MercuryServer F
  new_mercury_server = record {
    ex = (add_symbol server_symbol new_exchange).0;
    mm = new_market_maker 1 MarketMaker.new_config;
    noise = new_random_trader 2;
    tick = 0;
  }

module _ {F : Type 0} ⦃d : Double F⦄ (now_ns : ℕ → ℕ) where
  -- `for (auto& o : orders) ex.submit_order(o);`
  unfoldable pub submit_all : List (Order F) → Exchange F → Option (Exchange F)
  submit_all [] x = some x
  submit_all (o ∷ os) x = submit_order now_ns o x >>= (λ r. submit_all os r.0)

  unfoldable pub tick_mm : Inputs F → MercuryServer F → Option (MercuryServer F)
  tick_mm i s = get_book server_symbol s.ex >>= (λ book.
      let (mm, ex, mm_orders) = MarketMaker.on_tick i.mm_acquired book s.tick s.mm s.ex in
      submit_all mm_orders ex >>= (λ y. some (record s { mm = mm; ex = y })))

  unfoldable pub tick_noise : Inputs F → MercuryServer F → Option (MercuryServer F)
  tick_noise i s = get_book server_symbol s.ex >>= (λ book.
      let (noise, noise_orders) = Random.on_tick i.noise_acquired i.draw book s.tick s.noise in
      submit_all noise_orders s.ex >>= (λ y. some (record s { noise = noise; ex = y })))

  unfoldable pub tick_external : Inputs F → MercuryServer F → Option (MercuryServer F)
  tick_external i s = submit_all i.external s.ex >>= (λ y. some (record s { ex = y }))

  unfoldable pub run_tick : Inputs F → MercuryServer F → Option (MercuryServer F)
  run_tick i s =
      tick_mm i s
      >>= (λ a. tick_noise i a)
      >>= (λ b. tick_external i b)
      >>= (λ c. some (record c { tick = add64 c.tick 1 }))
