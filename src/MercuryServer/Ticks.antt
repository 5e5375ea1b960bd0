-- ===== src/MercuryServer/Ticks.antt =====
-- A tick of the server keeps its exchange in order, and ends.
use cpp_matching_engine.Prelude.{
  ℕ, ◌≡◌, ◌≢◌, refl, sym, ◌∙◌, subst, List, some, true, false, inl, inr, ◌<◌, ◌^◌, arith, nat_eq,
  list_eq, Option-cases, add64,
}
use cpp_matching_engine.Prelude.Map
use cpp_matching_engine.Double.{Double, IsOrdered}
use cpp_matching_engine.OrderBook.{OrderBook}
use cpp_matching_engine.Exchange.{Exchange, has_symbol, get_book}
use cpp_matching_engine.Exchange.Routing.{IsRouted}
use cpp_matching_engine.TradingAgent.Ids.{CanNumber}
use cpp_matching_engine.MercuryServer.Submissions.{submit_all-Grows}
use cpp_matching_engine.MercuryServer.Ids.{on_tick-Forgets}
use cpp_matching_engine.MercuryServer.{
  MercuryServer, Inputs, server_symbol, tick_mm, tick_noise, tick_external, run_tick,
}
use cpp_matching_engine.Traders.MarketMaker
use cpp_matching_engine.Traders.MarketMaker.Quotes.{on_tick-Issues}
use cpp_matching_engine.Traders.MarketMaker.Withdrawing.{on_tick-IsRouted}
use cpp_matching_engine.Traders.Random
use cpp_matching_engine.Traders.Random.Orders
use mathlib.Core.Bool.{true≢false}
use cpp_matching_engine.MercuryServer.Issuing.{
  IsBehind, AreOutside, issued-submitted, Forgets-IsBehind, Forgets-AreOutside, Grows-IsBehind,
}

module _ {F : Type 0} ⦃d : Double F⦄ where
  -- The state of the server between two ticks.
  pub record IsSound (s : MercuryServer F) : Type 0 where
    pub routed : IsRouted s.ex
    pub listed : has_symbol server_symbol s.ex ≡ true
    pub mm_behind : IsBehind s.mm.agent s.ex
    pub noise_behind : IsBehind s.noise.agent s.ex
    pub apart : s.mm.agent.trader_id ≢ s.noise.agent.trader_id

  has_symbol-get_book :
      (symbol : List ℕ) (x : Exchange F)
      → has_symbol symbol x ≡ true
      → (b : OrderBook F) × (get_book symbol x ≡ some b)
  unfolding has_symbol get_book
  has_symbol-get_book symbol x h = elim (Option-cases (Map.find symbol x.books)) [
    | inl e ↦ let p : false ≡ true = (rw (has_symbol, e) at h) in absurd (true≢false (sym p))
    | inr (b, e) ↦ (b, e)
  ]

module _ {F : Type 0} ⦃d : Double F⦄ (ord : IsOrdered F) (now_ns : ℕ → ℕ) where
  tick_mm-IsSound :
      (i : Inputs F) (s : MercuryServer F)
      → IsSound s
      → CanNumber 2 s.mm.agent
      → s.noise.agent.id_counter < 2 ^ 32
      → AreOutside s.ex i.external
      → (z : MercuryServer F) × (tick_mm now_ns i s ≡ some z)
        × IsSound z
        × (z.noise ≡ s.noise)
        × (z.mm.agent.id_counter < 2 ^ 32)
        × AreOutside z.ex i.external
  unfolding tick_mm
  tick_mm-IsSound i s v two one outside =
      let (book, found) = has_symbol-get_book server_symbol s.ex v.listed in
      let ticked = MarketMaker.on_tick i.mm_acquired book s.tick s.mm s.ex in
      let forgets = on_tick-Forgets i.mm_acquired book s.tick s.mm s.ex in
      let (issues, few, _) = on_tick-Issues i.mm_acquired book s.tick s.mm s.ex two in
      let (y, run, w, own, other, clients, symbols) =
        issued-submitted ord now_ns s.mm.agent ticked.0.agent s.noise.agent ticked.2 i.external
          ticked.1 (on_tick-IsRouted ord i.mm_acquired book s.tick s.mm s.ex v.routed) issues
          (omega arith) (Forgets-IsBehind s.mm.agent s.ex ticked.1 forgets v.mm_behind)
          (Forgets-IsBehind s.noise.agent s.ex ticked.1 forgets v.noise_behind) v.apart one
          (Forgets-AreOutside i.external s.ex ticked.1 forgets outside) in
      (
        record s { mm = ticked.0; ex = y },
        rw (tick_mm, found, run) refl,
        record {
          routed = w;
          listed = symbols server_symbol (forgets.1 server_symbol v.listed);
          mm_behind = own;
          noise_behind = other;
          apart = λ e. v.apart (sym issues.same_trader ∙ e);
        },
        refl,
        omega (arith, issues.counted),
        clients,
      )

  tick_noise-IsSound :
      (i : Inputs F) (s : MercuryServer F)
      → IsSound s
      → CanNumber 1 s.noise.agent
      → s.mm.agent.id_counter < 2 ^ 32
      → AreOutside s.ex i.external
      → (z : MercuryServer F) × (tick_noise now_ns i s ≡ some z)
        × IsSound z
        × AreOutside z.ex i.external
  unfolding tick_noise
  tick_noise-IsSound i s v one two outside =
      let (book, found) = has_symbol-get_book server_symbol s.ex v.listed in
      let ticked = Random.on_tick i.noise_acquired i.draw book s.tick s.noise in
      let (issues, few) =
        Random.Orders.on_tick-Issues i.noise_acquired i.draw book s.tick s.noise one in
      let (y, run, w, own, other, clients, symbols) =
        issued-submitted ord now_ns s.noise.agent ticked.0.agent s.mm.agent ticked.1 i.external s.ex
          v.routed issues (omega arith) v.noise_behind v.mm_behind (λ e. v.apart (sym e)) two
          outside in
      (
        record s { noise = ticked.0; ex = y },
        rw (tick_noise, found, run) refl,
        record {
          routed = w;
          listed = symbols server_symbol v.listed;
          mm_behind = other;
          noise_behind = own;
          apart = λ e. v.apart (e ∙ issues.same_trader);
        },
        clients,
      )

  tick_external-IsSound :
      (i : Inputs F) (s : MercuryServer F)
      → IsSound s
      → AreOutside s.ex i.external
      → (z : MercuryServer F) × (tick_external now_ns i s ≡ some z) × IsSound z
  unfolding tick_external
  tick_external-IsSound i s v (fresh, low) =
      let (y, run, w, grows) = submit_all-Grows ord now_ns i.external s.ex v.routed fresh in
      (
        record s { ex = y },
        rw (tick_external, run) refl,
        record {
          routed = w;
          listed = grows.listed server_symbol v.listed;
          mm_behind = Grows-IsBehind s.mm.agent i.external s.ex y grows low v.mm_behind;
          noise_behind = Grows-IsBehind s.noise.agent i.external s.ex y grows low v.noise_behind;
          apart = v.apart;
        },
      )

  -- If no value is NaN, and the server is sound: its exchange has valid books, an index that
  -- knows the book of every order that rests, and the symbol listed, and its two agents have
  -- different ids above zero, of which the exchange knows no number that they have yet to give.
  -- If the agents can number two orders and one more, and the orders from outside are not
  -- overfilled and have different ids below 2^32 that the exchange does not know, then a tick
  -- returns, and leaves a sound server.
  pub run_tick-IsSound :
      (i : Inputs F) (s : MercuryServer F)
      → IsSound s
      → CanNumber 2 s.mm.agent
      → CanNumber 1 s.noise.agent
      → AreOutside s.ex i.external
      → (z : MercuryServer F) × (run_tick now_ns i s ≡ some z) × IsSound z
  unfolding run_tick
  run_tick-IsSound i s v two one outside =
      let (a, run_a, v_a, same, small, left) = tick_mm-IsSound i s v two (omega arith) outside in
      let one_a = subst (λ n. CanNumber 1 n.agent) (sym same) one in
      let (b, run_b, v_b, clients) = tick_noise-IsSound i a v_a one_a small left in
      let (c, run_c, v_c) = tick_external-IsSound i b v_b clients in
      (
        record c { tick = add64 c.tick 1 },
        rw (run_tick, run_a, run_b, run_c) refl,
        record {
          routed = v_c.routed;
          listed = v_c.listed;
          mm_behind = v_c.mm_behind;
          noise_behind = v_c.noise_behind;
          apart = v_c.apart;
        },
      )
