-- ===== src/Tests/Server.antt =====
-- Runs of the theorems on the server's clients.
use cpp_matching_engine.Prelude.{
  ℕ, ◌≡◌, refl, List, [], ◌∷◌, ◌++◌, Option, some, true, false, arith, inl, inr,
}
use cpp_matching_engine.Prelude.Int.{ℤ, pos}
use cpp_matching_engine.Types.{Order, buy, limit, gtc}
use cpp_matching_engine.SpscQueue.{SpscQueue}
use cpp_matching_engine.SpscQueue.Fifo.{IsQueue}
use cpp_matching_engine.TcpServer.{Moment, Turn, new_client, Request, parse_request}
use cpp_matching_engine.TcpServer.Requests.{
  decimal, request_line, parse_request-minus, parse_request-request_line,
}
use cpp_matching_engine.TcpServer.Pushing.{HasPushed, push_loop-HasPushed}
use cpp_matching_engine.TcpServer.Stopping.{PlacesOrder, place_order-Stopped}
use cpp_matching_engine.TcpServer.Connections.{Ends, handle_client-Ends}
use cpp_matching_engine.Tests.Data.{order}

abbrev fresh : Order ℤ
fresh = order 0 buy limit gtc 0 0

-- Every price is read as 150.
abbrev read_price : List ℕ → Option ℤ
read_price text = some (pos 150)

abbrev ticker : List ℕ
ticker = 65 ∷ 65 ∷ 80 ∷ 76 ∷ []

abbrev buy_word : List ℕ
buy_word = 66 ∷ 85 ∷ 89 ∷ []

parse_request-request_line_example :
    parse_request read_price (request_line buy_word ticker 100 (32 ∷ 49 ∷ 53 ∷ 48 ∷ []))
    ≡ some (record { side_str = buy_word; sym = ticker; qty = 100; price = pos 150 })
parse_request-request_line_example =
    parse_request-request_line read_price buy_word ticker 100 (49 ∷ 53 ∷ 48 ∷ []) (pos 150)
      (refl, (refl, (refl, tt))) (refl, (refl, (refl, (refl, tt)))) (omega arith) refl

-- "BUY AAPL -5 150"
parse_request-minus_example :
    parse_request read_price
      (buy_word ++ (32 ∷ (ticker ++ (32 ∷ 45 ∷ (decimal 5 ++ (32 ∷ 49 ∷ 53 ∷ 48 ∷ []))))))
    ≡ some (record { side_str = buy_word; sym = ticker; qty = 4294967291; price = pos 150 })
parse_request-minus_example =
    parse_request-minus read_price buy_word ticker 5 (49 ∷ 53 ∷ 48 ∷ []) (pos 150)
      (refl, (refl, (refl, tt))) (refl, (refl, (refl, (refl, tt)))) (omega arith) (omega arith) refl

-- A ring of two cells that is full.
abbrev full : SpscQueue (Order ℤ)
full = record { buffer = fresh ∷ fresh ∷ []; capacity = 2; tail = 1; head = 0 }

full-IsQueue : IsQueue full (fresh ∷ [])
full-IsQueue = record {
  sized = refl;
  room = omega arith;
  head_in = omega arith;
  tail_at = refl;
  holds = (refl, tt);
}

abbrev idle : Moment
idle = record { running = true; pops = 0 }

abbrev popping : Moment
popping = record { running = true; pops = 1 }

abbrev stopping : Moment
stopping = record { running = false; pops = 0 }

push_loop-HasPushed_example : HasPushed fresh (idle ∷ popping ∷ []) full (fresh ∷ [])
push_loop-HasPushed_example =
    push_loop-HasPushed fresh (idle ∷ popping ∷ []) full (fresh ∷ []) full-IsQueue (omega arith)
      (refl, inr (refl, inl (omega arith)))

abbrev request : Request ℤ
request = record { side_str = buy_word; sym = ticker; qty = 100; price = pos 150 }

place_order-Stopped_example :
    PlacesOrder
      (λ k. fresh)
      (idle ∷ [])
      (idle ∷ stopping ∷ [])
      request
      (new_client full)
      (fresh ∷ [])
place_order-Stopped_example =
    place_order-Stopped (λ k. fresh) (idle ∷ []) stopping [] request (new_client full) (fresh ∷ [])
      full-IsQueue (omega arith) (refl, tt) refl

abbrev turns : List Turn
turns =
    record {
      running = true;
      received = some (request_line buy_word ticker 100 (32 ∷ 49 ∷ []));
      pops = 0;
      moments = popping ∷ [];
    }
    ∷ record { running = true; received = some (66 ∷ []); pops = 0; moments = popping ∷ [] }
    ∷ []

handle_client-Ends_example : Ends read_price (λ k. fresh) turns (new_client full) (fresh ∷ [])
handle_client-Ends_example =
    handle_client-Ends read_price (λ k. fresh) turns (new_client full) (fresh ∷ []) full-IsQueue
      (omega arith) ((refl, inl (omega arith)), ((refl, inl (omega arith)), tt)) (omega arith)
