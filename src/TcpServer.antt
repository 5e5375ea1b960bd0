-- ===== src/TcpServer.antt =====
-- networking/tcp_server.h: `start`, `stop` and the handling of a client. What `recv` gives, how the
-- flag `running_` reads and what the consumer of the queue does meanwhile are inputs; the stream's
-- reading of a double is a parameter.
pub mod Requests
pub mod Popping
pub mod Pushing
pub mod Stopping
pub mod Numbering
pub mod Delivering
pub mod Connections
use cpp_matching_engine.Prelude.{
  ℕ, zero, suc, Bool, true, false, not, ◌&&◌, ◌||◌, List, [], ◌∷◌, ◌++◌, Option, none, some, ◌>>=◌,
  if◌then◌else◌, ltb, leb, ◌==◌, nat_eq, list_eq, add64, u32_mod, ◌+◌, ◌-◌, ◌*◌, ◌%◌,
}
use cpp_matching_engine.Prelude.Int.{pos}
use cpp_matching_engine.Double.{Double}
use cpp_matching_engine.Types.{Side, buy, sell, Order, limit, new, gtc, set_symbol, c_string}
use cpp_matching_engine.OrderBook.{zero_price}
use cpp_matching_engine.SpscQueue.{SpscQueue, push, pop}

-- The port is left out; the thread of `listen_loop` runs as long as its handle is kept.
pub record TcpServer : Type 0 where
  pub running : Bool
  pub has_listener : Bool

abbrev pub new_server : TcpServer
new_server = record { running = false; has_listener = false }

unfoldable pub start : TcpServer → TcpServer
start s = if s.running then s else record { running = true; has_listener = true }

-- The wait for the thread is over when `stop` returns.
unfoldable pub stop : TcpServer → TcpServer
stop s = record { running = false; has_listener = false }

-- `std::isspace`
abbrev pub is_space : ℕ → Bool
is_space c = (c == 32) || (leb 9 c && leb c 13)

abbrev pub is_digit : ℕ → Bool
is_digit c = leb 48 c && leb c 57

abbrev pub skip_space : List ℕ → List ℕ
skip_space [] = []
skip_space (c ∷ s) = if is_space c then skip_space s else c ∷ s

abbrev pub split_word : List ℕ → List ℕ × List ℕ
split_word [] = ([], [])
split_word (c ∷ s) =
    let (word, rest) = split_word s in if is_space c then ([], c ∷ s) else (c ∷ word, rest)

-- `ss >> side_str` with what it leaves of the stream; `none` if it fails.
unfoldable pub read_word : List ℕ → Option (List ℕ × List ℕ)
read_word s = elim (skip_space s) [ [] ↦ none | c ∷ rest ↦ some (split_word (c ∷ rest)) ]

abbrev pub digits_value : ℕ → List ℕ → ℕ × List ℕ
digits_value v [] = (v, [])
digits_value v (c ∷ s) = if is_digit c then digits_value (v * 10 + (c - 48)) s else (v, c ∷ s)

-- Whether a minus sign stands in front, and what follows the sign.
abbrev pub read_sign : List ℕ → Bool × List ℕ
read_sign [] = (false, [])
read_sign (c ∷ s) = if c == 45 then (true, s) else if c == 43 then (false, s) else (false, c ∷ s)

-- Digits that make a `uint32_t`, which a minus sign negates modulo 2 ^ 32.
unfoldable pub read_digits : Bool → List ℕ → Option (ℕ × List ℕ)
read_digits negative [] = none
read_digits negative (c ∷ s) =
    let (v, rest) = digits_value 0 (c ∷ s) in
    if not (is_digit c) || leb u32_mod v
    then none
    else some (if negative then (u32_mod - v) % u32_mod else v, rest)

unfoldable pub read_unsigned : List ℕ → Option (ℕ × List ℕ)
read_unsigned s = let (negative, rest) = read_sign (skip_space s) in read_digits negative rest

pub record Request (F : Type 0) : Type 0 where
  pub side_str : List ℕ
  pub sym : List ℕ
  pub qty : ℕ
  pub price : F

-- "BUY" and "buy".
abbrev pub request_side : List ℕ → Side
request_side s = if (s == 66 ∷ 85 ∷ 89 ∷ []) || (s == 98 ∷ 117 ∷ 121 ∷ []) then buy else sell

module _ {F : Type 0} where
  -- `ss >> side_str >> sym >> qty >> price`
  unfoldable pub parse_request : (List ℕ → Option F) → List ℕ → Option (Request F)
  parse_request read_double msg = do
    (side_str, after_side) ← read_word msg
    (sym, after_sym) ← read_word after_side
    (qty, after_qty) ← read_unsigned after_sym
    price ← read_double after_qty
    some (record { side_str = side_str; sym = sym; qty = qty; price = price })

  unfoldable pub request_order : Order F → ℕ → Request F → Order F
  request_order o id r =
      set_symbol
        (record o {
          order_id = id;
          trader_id = 999;
          timestamp_ns = 0;
          side = request_side r.side_str;
          type = limit;
          price = r.price;
          quantity = r.qty;
          filled_qty = 0;
          status = new;
          tif = gtc;
        })
        r.sym

-- What a refused push meets: the flag as the loop reads it, and the pops before the next attempt.
pub record Moment : Type 0 where
  pub running : Bool
  pub pops : ℕ

module _ {T : Type 0} where
  abbrev pub pop_many : T → ℕ → SpscQueue T → SpscQueue T
  pop_many item zero q = q
  pop_many item (suc n) q = pop_many item n (pop item q).0

  -- `while (!q_orders_->push(o) && running_)`: the queue, and whether it has the item. `none` if the
  -- moments end before the loop.
  unfoldable pub push_loop : T → List Moment → SpscQueue T → Option (SpscQueue T × Bool)
  push_loop item [] q = let (p, pushed) = push item q in if pushed then some (p, true) else none
  push_loop item (t ∷ ts) q =
      let (p, pushed) = push item q in
      let later = push_loop item ts (pop_many item t.pops q) in
      if pushed then some (p, true) else if t.running then later else some (q, false)

-- `sent` has the ids of the "ACK OrderID" lines.
pub record Client (F : Type 0) : Type 0 where
  pub order_id_counter : ℕ
  pub queue : SpscQueue (Order F)
  pub sent : List ℕ

-- A turn of the client's loop: the flag, what `recv` gives (`none` if it fails or the client is
-- gone), the pops before the push, and the moments of the push loop.
pub record Turn : Type 0 where
  pub running : Bool
  pub received : Option (List ℕ)
  pub pops : ℕ
  pub moments : List Moment

module _ {F : Type 0} where
  abbrev pub new_client : SpscQueue (Order F) → Client F
  new_client q = record { order_id_counter = 5000000; queue = q; sent = [] }

  -- A request that is read; `acquired` gives the pool's object for an order.
  unfoldable pub place_order :
      (ℕ → Order F) → List Moment → Request F → Client F → Option (Client F)
  place_order acquired moments r c =
      let id = add64 c.order_id_counter 1 in
      push_loop (request_order (acquired id) id r) moments c.queue
      >>= (λ p. some (record { order_id_counter = id; queue = p.0; sent = c.sent ++ id ∷ [] }))

module _ {F : Type 0} (read_double : List ℕ → Option F) (acquired : ℕ → Order F) where
  -- A message that was received, with the zero that the code writes behind it.
  unfoldable pub handle_message : List Moment → List ℕ → Client F → Option (Client F)
  handle_message moments bytes c = elim (parse_request read_double (c_string (bytes ++ 0 ∷ []))) [
    | none ↦ some c
    | some r ↦ place_order acquired moments r c
  ]

  unfoldable pub handle_client : List Turn → Client F → Option (Client F)
  handle_client [] c = some c
  handle_client (t ∷ ts) c =
      let next = λ (bytes : List ℕ).
        let popped = pop_many (acquired 0) t.pops c.queue in
        handle_message t.moments bytes (record c { queue = popped })
        >>= (λ b. handle_client ts b) in
      if t.running then elim t.received [ none ↦ some c | some bytes ↦ next bytes ] else some c
