-- ===== src/Tests/Matching.antt =====
-- The matching engine on the shared book.
use cpp_matching_engine.Prelude.{ℕ, List, [], ◌∷◌, Option, none, some, ◌≡◌, refl, map}
use cpp_matching_engine.Prelude.Int.{ℤ, pos}
use cpp_matching_engine.Double.Whole.{whole}
use cpp_matching_engine.Types.{buy, limit, gtc, fok}
use cpp_matching_engine.MatchingEngine.{Match, submit_order, new_engine}
use cpp_matching_engine.Tests.Data.{engine_code, order, two_sided}

-- The reports of a submission: order, quantity and price.
abbrev fills : Option (Match ℤ) → List (ℕ × ℕ × ℤ)
fills none = []
fills (some s) = map (λ r. (r.order_id, r.exec_qty, r.exec_price)) s.engine.sent

sweep_two_levels :
    fills (submit_order (λ n. n) new_engine (order 9 buy limit gtc 103 60) two_sided)
    ≡ (4, 10, pos 101)
      ∷ (9, 10, pos 101)
      ∷ (5, 40, pos 101)
      ∷ (9, 40, pos 101)
      ∷ (6, 10, pos 103)
      ∷ (9, 10, pos 103)
      ∷ []
unfolding engine_code
sweep_two_levels = refl

fok_refused : fills (submit_order (λ n. n) new_engine (order 9 buy limit fok 101 60) two_sided) ≡ []
unfolding engine_code
fok_refused = refl
