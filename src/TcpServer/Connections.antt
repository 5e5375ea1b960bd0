-- ===== src/TcpServer/Connections.antt =====
-- Whole connections: `handle_client` does to the queue, the counter and the client what it should.
use cpp_matching_engine.Prelude.{
  subst, ℕ, suc, ◌≡◌, refl, List, [], ◌∷◌, ◌++◌, Option, some, Bool-cases, inl, inr, length, drop,
  ◌+◌, ◌<◌, arith, add64, u64_mod, All, Option-cases,
}
use cpp_matching_engine.Types.{Order, c_string}
use cpp_matching_engine.SpscQueue.Fifo.{IsQueue}
use cpp_matching_engine.TcpServer.{
  Moment, Turn, pop_many, Client, Request, parse_request, place_order, handle_message,
  handle_client,
}
use cpp_matching_engine.TcpServer.Popping.{pop_many-drops}
use cpp_matching_engine.TcpServer.Pushing.{Serves, pushed, push_loop-Pushes}
use cpp_matching_engine.TcpServer.Numbering.{
  Numbers, nothing-Numbers, Numbers-trans, Numbers-popped,
}
use cpp_matching_engine.TcpServer.Delivering.{
  IsLeft, requests, numbered, orders, queue_after, queue_after-IsLeft,
}

module _ {F : Type 0} (read_double : List ℕ → Option F) (acquired : ℕ → Order F) where
  abbrev Places : List Moment → Request F → Client F → List (Order F) → Type 0
  Places ts r c xs =
      (b : Client F) × (place_order acquired ts r c ≡ some b)
      × Numbers c 1 b
      × IsQueue b.queue (pushed c.queue.capacity (numbered acquired c.order_id_counter r) ts xs)

  place_order-Places :
      (ts : List Moment) (r : Request F) (c : Client F) (xs : List (Order F))
      → IsQueue c.queue xs
      → 1 < c.queue.capacity
      → Serves ts
      → c.order_id_counter + 1 < u64_mod
      → Places ts r c xs
  unfolding place_order
  place_order-Places ts r c xs v h serves small =
      let id = c.order_id_counter + 1 in
      let value : add64 c.order_id_counter 1 ≡ id = omega arith in
      let (p, run, last, wide) =
        push_loop-Pushes (numbered acquired c.order_id_counter r) ts c.queue xs v h serves in
      (
        record { order_id_counter = id; queue = p; sent = c.sent ++ id ∷ [] },
        rw (place_order, value, run) refl,
        record { counted = refl; acknowledged = refl; wide = wide },
        last,
      )

  -- What a whole connection does to a client whose queue holds `xs`.
  abbrev pub Ends : List Turn → Client F → List (Order F) → Type 0
  Ends ts c xs =
      let rs = requests read_double acquired ts in
      let left = queue_after read_double acquired c.queue.capacity c.order_id_counter ts xs in
      (b : Client F) × (handle_client read_double acquired ts c ≡ some b)
      × Numbers c (length rs) b
      × IsQueue b.queue left
      × IsLeft left (xs ++ orders acquired c.order_id_counter rs)

  abbrev Runs : List Turn → Client F → List (Order F) → Type 0
  Runs ts c xs =
      (b : Client F) × (handle_client read_double acquired ts c ≡ some b)
      × Numbers c (length (requests read_double acquired ts)) b
      × IsQueue b.queue (queue_after read_double acquired c.queue.capacity c.order_id_counter ts xs)

  handle_client-Runs :
      (ts : List Turn) (c : Client F) (xs : List (Order F))
      → IsQueue c.queue xs
      → 1 < c.queue.capacity
      → All (λ t. Serves t.moments) ts
      → c.order_id_counter + length ts < u64_mod
      → Runs ts c xs
  unfolding handle_client handle_message
  handle_client-Runs [] c xs v h serves small = (c, refl, nothing-Numbers c, v)
  handle_client-Runs (t ∷ ts) c xs v h (serves, later) small = elim (Bool-cases t.running) [
    | inr e ↦ (c, rw (handle_client, e) refl, rw e (nothing-Numbers c), rw e v)
    | inl e ↦ elim (Option-cases t.received) [
      | inl f ↦ (c, rw (handle_client, e, f) refl, rw (e, f) (nothing-Numbers c), rw (e, f) v)
      | inr (bytes, f) ↦
          let (w, size) = pop_many-drops (acquired 0) t.pops c.queue xs v in
          let q = pop_many (acquired 0) t.pops c.queue in
          let popped = record c { queue = q } in
          let ys = drop t.pops xs in
          elim (Option-cases (parse_request read_double (c_string (bytes ++ 0 ∷ [])))) [
            | inl none_read ↦
                let (b, run, numbers, last) =
                  handle_client-Runs ts popped ys w (omega (arith, size)) later (omega arith) in
                (
                  b,
                  rw (handle_client, e, f, handle_message, none_read) run,
                  rw (e, f, none_read) (Numbers-popped c b q _ size numbers),
                  rw (e, f, none_read)
                      (subst
                        (λ k.
                          IsQueue b.queue
                            (queue_after read_double acquired k c.order_id_counter ts ys))
                        size last),
                )
            | inr (r, read) ↦
                let (a, placed, first, u) =
                  place_order-Places t.moments r popped ys w (omega (arith, size)) serves
                    (omega arith) in
                let zs = pushed q.capacity (numbered acquired c.order_id_counter r) t.moments ys in
                let (b, run, others, last) =
                  handle_client-Runs ts a zs u (omega (arith, first.wide, size)) later
                    (omega (arith, first.counted)) in
                let count : 1 + length (requests read_double acquired ts)
                    ≡ suc (length (requests read_double acquired ts)) =
                  omega arith in
                let all = Numbers-trans popped a b 1 _ first others in
                (
                  b,
                  rw (handle_client, e, f, handle_message, read, placed) run,
                  rw (e, f, read)
                      (Numbers-popped c b q _ size (subst (λ k. Numbers popped k b) count all)),
                  rw (e, f, read) (rw (first.wide, first.counted, size) at last),
                )
          ]
    ]
  ]

  -- If the queue of a client is a ring of a capacity above one that holds some orders, each turn
  -- has a moment of the push loop, with the server running until then, at which the consumer
  -- pops, and counter and number of turns stay below 2^64, then handle_client ends. The requests
  -- that it read before the server stopped or the client was gone are numbered and acknowledged,
  -- each with the next number. The queue holds what queue_after says of the list of the orders,
  -- in which each turn takes off what is popped and puts the order of its request, if there is
  -- one, behind the others; this is what is left of the orders of the start followed by those of
  -- the requests when some first ones are gone.
  pub handle_client-Ends :
      (ts : List Turn) (c : Client F) (xs : List (Order F))
      → IsQueue c.queue xs
      → 1 < c.queue.capacity
      → All (λ t. Serves t.moments) ts
      → c.order_id_counter + length ts < u64_mod
      → Ends ts c xs
  handle_client-Ends ts c xs v h serves small =
      let (b, run, numbers, last) = handle_client-Runs ts c xs v h serves small in
      (
        b,
        run,
        numbers,
        last,
        queue_after-IsLeft read_double acquired c.queue.capacity c.order_id_counter ts xs,
      )
