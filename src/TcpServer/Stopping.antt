-- ===== src/TcpServer/Stopping.antt =====
-- A stop of the server while a client waits for room in the queue.
use cpp_matching_engine.Prelude.{
  ℕ, ◌≡◌, refl, ◌∙◌, List, [], ◌∷◌, ◌++◌, some, true, false, Bool, Bool-cases, inl, inr, ◌⊎◌,
  length, ◌==◌, nat_eq, ltb, ◌+◌, ◌<◌, arith, add64, All,
}
use cpp_matching_engine.Types.{Order}
use cpp_matching_engine.SpscQueue.{SpscQueue}
use cpp_matching_engine.SpscQueue.Fifo.{IsQueue, push-IsQueue}
use cpp_matching_engine.TcpServer.{Moment, push_loop, Client, Request, request_order, place_order}
use cpp_matching_engine.TcpServer.Pushing.{
  first_pops, pushed, push_loop-refused, push_loop-room, push_loop-waits, push_loop-popped,
}

module _ {T : Type 0} where
  -- The queue after a stop: the item is in it, or there was no room before the stop.
  abbrev pub Stopped : ℕ → T → List Moment → List T → SpscQueue T → Bool → Type 0
  Stopped capacity item ts xs p true =
      ((length xs + 1 < capacity) ⊎ (0 < first_pops ts)) × IsQueue p (pushed capacity item ts xs)
  Stopped capacity item ts xs p false =
      (length xs + 1 ≡ capacity) × (first_pops ts ≡ 0) × IsQueue p xs

  -- A moment at which nothing is popped makes no difference.
  Stopped-wait :
      (capacity : ℕ) (item : T) (t : Moment) (ts : List Moment) (xs : List T) (p : SpscQueue T)
      (ok : Bool)
      → (t.pops == 0) ≡ true
      → Stopped capacity item ts xs p ok
      → Stopped capacity item (t ∷ ts) xs p ok
  Stopped-wait capacity item t ts xs p true e h = rw e h
  Stopped-wait capacity item t ts xs p false e h = rw e h

  push_loop-Stopped :
      (item : T) (ts : List Moment) (stop : Moment) (more : List Moment) (q : SpscQueue T)
      (xs : List T)
      → IsQueue q xs
      → 1 < q.capacity
      → All (λ t. t.running ≡ true) ts
      → stop.running ≡ false
      → (p : SpscQueue T) × (ok : Bool) × (push_loop item (ts ++ stop ∷ more) q ≡ some (p, ok))
        × Stopped q.capacity item ts xs p ok
  push_loop-Stopped item [] stop more q xs v h running stopped = elim (push-IsQueue q xs item v) [
    | inl (full, ok, same) ↦
        (q, false, push_loop-refused item stop more q ok ∙ rw stopped refl, (full, refl, v))
    | inr (room, ok, w) ↦
        let (p, run, last, wide) = push_loop-room item (stop ∷ more) q xs v room in
        let fits : ltb (length xs + 1) q.capacity ≡ true = ground arith in
        (p, true, run, (inl room, rw fits (rw fits at last)))
  ]
  push_loop-Stopped item (t ∷ ts) stop more q xs v h (running, others) stopped =
      let rest = ts ++ stop ∷ more in
      elim (Bool-cases (ltb (length xs + 1) q.capacity)) [
        | inl fits ↦
            let room : length xs + 1 < q.capacity = ground arith in
            let (p, run, last, wide) = push_loop-room item (t ∷ rest) q xs v room in
            (p, true, run, (inl room, rw fits (rw fits at last)))
        | inr no_room ↦
            let full : length xs + 1 ≡ q.capacity = ground (arith, v.room) in
            elim (Bool-cases (t.pops == 0)) [
              | inl e ↦
                  let none_popped : t.pops ≡ 0 = ground arith in
                  let (p, ok, run, last) =
                    push_loop-Stopped item ts stop more q xs v h others stopped in
                  (
                    p,
                    ok,
                    push_loop-waits item t rest q xs v full running none_popped ∙ run,
                    Stopped-wait q.capacity item t ts xs p ok e last,
                  )
              | inr e ↦
                  let some_popped : 0 < t.pops = ground arith in
                  let (p, run, last, wide) =
                    push_loop-popped item t rest q xs v h full running some_popped in
                  (
                    p,
                    true,
                    run,
                    (inr (rw e some_popped), rw (no_room, e) (rw (no_room, e) at last)),
                  )
            ]
      ]

module _ {F : Type 0} where
  -- The client after an order whose push may have met a stop.
  abbrev pub PlacesOrder :
      (ℕ → Order F) → List Moment → List Moment → Request F → Client F → List (Order F) → Type 0
  PlacesOrder acquired ts all r c xs =
      let id = add64 c.order_id_counter 1 in
      (p : SpscQueue (Order F)) × (ok : Bool) × (place_order acquired all r c
        ≡ some (record { order_id_counter = id; queue = p; sent = c.sent ++ id ∷ [] }))
      × Stopped c.queue.capacity (request_order (acquired id) id r) ts xs p ok

  -- If the ring of a client has a capacity above one and holds some orders, and the flag reads
  -- that the server runs at some refusals, whatever the consumer pops there, and then that it has
  -- stopped, then placing an order ends, uses up a number and acknowledges it, and exactly one of
  -- two holds: there was room or the consumer had popped before the stop, and the order is behind
  -- what is left of the others; or the ring was full and nothing was popped, and the ring holds
  -- what it held, without the order.
  pub place_order-Stopped :
      (acquired : ℕ → Order F) (ts : List Moment) (stop : Moment) (more : List Moment)
      (r : Request F) (c : Client F) (xs : List (Order F))
      → IsQueue c.queue xs
      → 1 < c.queue.capacity
      → All (λ t. t.running ≡ true) ts
      → stop.running ≡ false
      → PlacesOrder acquired ts (ts ++ stop ∷ more) r c xs
  unfolding place_order
  place_order-Stopped acquired ts stop more r c xs v h running stopped =
      let id = add64 c.order_id_counter 1 in
      let o = request_order (acquired id) id r in
      let (p, ok, run, last) = push_loop-Stopped o ts stop more c.queue xs v h running stopped in
      (p, ok, rw (place_order, run) refl, last)
