-- ===== src/MercuryServer/Starting.antt =====
-- The state in which the server starts its loop.
use cpp_matching_engine.Prelude.{
  ℕ, ◌≡◌, refl, sym, ◌∙◌, List, some, Bool-cases, inl, inr, ◌==◌, list_eq, nat_eq, arith,
  some_injective, subst, ◌<◌,
}
use cpp_matching_engine.Prelude.Map
use cpp_matching_engine.Double.{Double, IsOrdered}
use cpp_matching_engine.OrderBook.{OrderBook, new_book}
use cpp_matching_engine.OrderBook.Valid.{IsValid, queue}
use cpp_matching_engine.PriceTime.{count, locate}
use cpp_matching_engine.Exchange.{new_exchange, add_symbol, has_symbol}
use cpp_matching_engine.Exchange.Routing.{IsRouted, resting}
use cpp_matching_engine.TradingAgent.{new_agent}
use cpp_matching_engine.Traders.MarketMaker.{new_market_maker}
use cpp_matching_engine.Traders.Random.{new_random_trader}
use cpp_matching_engine.MercuryServer.{MercuryServer, new_mercury_server, server_symbol}
use cpp_matching_engine.MercuryServer.Ticks.{IsSound, run_tick-IsSound}
use cpp_matching_engine.MercuryServer.Issuing.{AreOutside}
use cpp_matching_engine.MercuryServer.{Inputs, run_tick}
use cpp_matching_engine.TradingAgent.Ids.{CanNumber}

module _ {F : Type 0} ⦃d : Double F⦄ where
  new_book-IsValid : (symbol : List ℕ) → IsValid {F = F} (new_book symbol)
  unfolding new_book queue count locate Map.find
  new_book-IsValid symbol = record {
    bid_levels = tt;
    ask_levels = tt;
    unique = λ id. omega arith;
    indexed = λ id. refl;
  }

  only_book :
      (s : List ℕ) (b : OrderBook F)
      → Map.find s (new_mercury_server {F = F}).ex.books ≡ some b
      → new_book server_symbol ≡ b
  unfolding new_mercury_server add_symbol new_exchange Map.find Map.insert
  only_book s b h = elim (Bool-cases (server_symbol == s)) [
    | inl e ↦ let p : some (new_book server_symbol) ≡ some b = (rw e at h) in some_injective p
    | inr e ↦ let p = (rw e at h) in absurd cc
  ]

  new_mercury_server-IsRouted : IsRouted (new_mercury_server {F = F}).ex
  unfolding new_book queue count
  new_mercury_server-IsRouted = record {
    books_valid = λ s b h. subst IsValid (only_book s b h) (new_book-IsValid server_symbol);
    routed = λ s b id h more.
        let rests : 0 < resting {F = F} id (new_book server_symbol) =
          subst (λ c. 0 < resting {F = F} id c) (sym (only_book s b h)) more in
        absurd (omega (arith, rests));
  }

  pub new_mercury_server-IsSound : IsSound (new_mercury_server {F = F})
  unfolding new_mercury_server add_symbol new_exchange new_market_maker new_random_trader new_agent
      has_symbol Map.find Map.insert
  new_mercury_server-IsSound = record {
    routed = new_mercury_server-IsRouted;
    listed = refl;
    mm_behind = (omega arith, λ k above below. refl);
    noise_behind = (omega arith, λ k above below. refl);
    apart = λ e. absurd (omega arith);
  }

-- What a server can come to from its start, one tick after another.
pub data Reachable {F : Type 0} ⦃d : Double F⦄ (now_ns : ℕ → ℕ) : MercuryServer F → Type 0 where
  starts : Reachable now_ns new_mercury_server
  ticks :
      (i : Inputs F) (s z : MercuryServer F)
      → Reachable now_ns s
      → CanNumber 2 s.mm.agent
      → CanNumber 1 s.noise.agent
      → AreOutside s.ex i.external
      → run_tick now_ns i s ≡ some z
      → Reachable now_ns z

-- If no value is NaN, every state is sound that the server comes to from its start by ticks, before
-- each of which the agents can number two orders and one more, and whose orders from outside are
-- not overfilled and have different ids below 2^32 that the exchange does not know.
pub Reachable-IsSound :
    {F : Type 0} ⦃d : Double F⦄ (ord : IsOrdered F) (now_ns : ℕ → ℕ) (z : MercuryServer F)
    → Reachable now_ns z
    → IsSound z
Reachable-IsSound ord now_ns _ starts = new_mercury_server-IsSound
Reachable-IsSound ord now_ns _ (ticks i s z reached two one outside run) =
    let sound = Reachable-IsSound ord now_ns s reached in
    let (y, found, v) = run_tick-IsSound ord now_ns i s sound two one outside in
    subst IsSound (some_injective (sym found ∙ run)) v
