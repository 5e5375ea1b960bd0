-- ===== src/Tests/Listed.antt =====
-- The theorems on the exchange, with one symbol listed.
use cpp_matching_engine.Prelude.{
  ◌+◌, ◌-◌, ℕ, ◌<◌, ◌≡◌, refl, Bool, true, List, [], ◌∷◌, none, some, arith, ◌==◌, nat_eq, list_eq,
  take, Bool-cases, inl, inr, some_injective, subst, sym, ◌∙◌, ap, map,
}
use cpp_matching_engine.Prelude.Map
use cpp_matching_engine.Prelude.Int.{ℤ}
use cpp_matching_engine.Double.Whole.{whole, whole-IsOrdered}
use cpp_matching_engine.Types.{Order, buy, limit, gtc, symbol_string}
use cpp_matching_engine.OrderBook.{OrderBook}
use cpp_matching_engine.OrderBook.Valid.{queue, IsValid}
use cpp_matching_engine.PriceTime.{count}
use cpp_matching_engine.Exchange.{Exchange, new_exchange, submit_order, cancel_order, has_symbol}
use cpp_matching_engine.Exchange.Routing.{resting, IsRouted, cancel_order-IsRouted}
use cpp_matching_engine.Exchange.Submitting.{submit_order-IsRouted}
use cpp_matching_engine.Levels
use cpp_matching_engine.Prelude.Int.{pos}
use cpp_matching_engine.OrderBook.{OrderLocation, levels}
use cpp_matching_engine.OrderBook.Sides.{side_queue}
use cpp_matching_engine.PriceTime.{open_qty}
use cpp_matching_engine.Types.{sell, remaining}
use cpp_matching_engine.Exchange.{
  find_book_for_order, find_target, find_order, modify_order, reduce_order,
}
use cpp_matching_engine.Exchange.Modifying.{smaller, modify_order-in_place}
use cpp_matching_engine.Tests.Data.{two_sided, order, aapl, location, resting as resting_order}
use cpp_matching_engine.Tests.Valid.{two_sided-IsValid, order-IsSized}

abbrev pub ticker : List ℕ
ticker = take 4 aapl

abbrev pub listed : Exchange ℤ
listed = record (new_exchange) {
  books = (ticker, two_sided) ∷ [];
  global_order_index = map (λ id. (id, ticker)) (1 ∷ 2 ∷ 3 ∷ 4 ∷ 5 ∷ 6 ∷ []);
}

listed_book :
    (s : List ℕ) (b : OrderBook ℤ)
    → Map.find s listed.books ≡ some b
    → (ticker ≡ s) × (two_sided ≡ b)
unfolding Map.find
listed_book s b h = elim (Bool-cases (ticker == s)) [
  | inl e ↦
      let p : some two_sided ≡ some b = (rw e at h) in
      ((list_eq.same_iff ticker s).0 e, some_injective p)
  | inr e ↦ let p = (rw e at h) in absurd cc
]

listed-routed :
    (id : ℕ) → (0 < resting id two_sided) → Map.find id listed.global_order_index ≡ some ticker
unfolding queue count Map.find
listed-routed id h = ground arith

pub listed-IsRouted : IsRouted listed
listed-IsRouted = record {
  books_valid = λ s b h. subst IsValid (listed_book s b h).1 two_sided-IsValid;
  routed = λ s b id h more.
      let (p, q) = listed_book s b h in
      listed-routed id (subst (λ c. 0 < resting id c) (sym q) more) ∙ ap (λ r. some r) p;
}

fresh_id : Map.find 9 listed.global_order_index ≡ none
unfolding Map.find
fresh_id = refl

submit_order-IsRouted_example :
    (r : Exchange ℤ × Order ℤ × Bool) × (submit_order (λ n. n) (order 9 buy limit gtc 101 60) listed
      ≡ some r)
    × IsRouted r.0
    × (r.2 ≡ has_symbol (symbol_string aapl) listed)
submit_order-IsRouted_example =
    submit_order-IsRouted whole-IsOrdered (λ n. n) (order 9 buy limit gtc 101 60) listed
      listed-IsRouted (order-IsSized 9 buy limit gtc 101 60 (omega arith)) fresh_id

cancel_order-IsRouted_example :
    let (y, removed) = cancel_order 2 listed in
    IsRouted y
    × ((symbol : List ℕ) (b : OrderBook ℤ) → Map.find symbol y.books ≡ some b → resting 2 b ≡ 0)
    × ((symbol : List ℕ) (b : OrderBook ℤ)
        → Map.find symbol listed.books ≡ some b
        → 0 < resting 2 b
        → removed ≡ true)
cancel_order-IsRouted_example = cancel_order-IsRouted whole-IsOrdered 2 listed listed-IsRouted

-- Order 5 asks for 40 at 101, behind order 4.
abbrev fifth : Order ℤ
fifth = resting_order 5 sell 101 40

abbrev place : OrderLocation ℤ
place = location sell 101

fifth_book : find_book_for_order 5 listed ≡ some (ticker, two_sided)
unfolding find_book_for_order Map.find
fifth_book = refl

fifth_target : find_target 5 two_sided ≡ some (place, fifth)
unfolding find_target find_order Map.find Levels.find
fifth_target = refl

fifth-remaining : 15 < remaining fifth
unfolding remaining
fifth-remaining = omega arith

modify_order-in_place_example :
    let b' = smaller 5 two_sided place fifth 15 in
    (y : Exchange ℤ) × (modify_order (λ n. n) 5 (pos 101) 15 listed ≡ some (y, true))
    × IsRouted y
    × (y.books ≡ Map.insert ticker b' listed.books)
    × (side_queue sell b' ≡ reduce_order 5 (remaining fifth - 15) (side_queue sell two_sided))
    × (levels buy b' ≡ levels buy two_sided)
    × (open_qty (side_queue sell b') + (remaining fifth - 15)
        ≡ open_qty (side_queue sell two_sided))
modify_order-in_place_example =
    modify_order-in_place whole-IsOrdered (λ n. n) listed 5 ticker two_sided place fifth (pos 101)
      15 listed-IsRouted fifth_book fifth_target refl (omega arith) fifth-remaining
