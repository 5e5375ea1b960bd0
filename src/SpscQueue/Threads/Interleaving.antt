-- ===== src/SpscQueue/Threads/Interleaving.antt =====
-- What every interleaving of the two threads of utils/spsc_queue.h keeps.
use cpp_matching_engine.Prelude.{
  ℕ, ◌+◌, ◌<◌, ◌≡◌, inl, inr, refl, List, [], ◌∷◌, ◌++◌, some, get_elem?, set, length, ◌==◌, nat_eq,
  arith, ap, sym, ◌∙◌, subst, append_assoc, List-cases, some_injective,
}
use cpp_matching_engine.SpscQueue.{new_queue, next_index, read_cell}
use cpp_matching_engine.SpscQueue.Fifo.{
  IsQueue, full_test, empty_test, written-IsQueue, stored-IsQueue, released-IsQueue,
  new_queue-IsQueue,
}
use cpp_matching_engine.SpscQueue.Threads.{
  System, Step, load_tail, full, not_full, write_cell, store_tail, load_head, empty, not_empty,
  copy_item, store_head, Reachable, begin, next,
}
use cpp_matching_engine.SpscQueue.Threads.Seen.{
  ProducerSees, ConsumerSees, consumer-write, consumer-store, producer-release, first_cell,
}

module _ {T : Type 0} where
  record Sound (s : System T) : Type 0 where
    xs : List T
    sound : IsQueue s.queue xs
    in_order : s.pushed ≡ s.popped ++ xs
    producer_sees : ProducerSees s.queue xs s.producer
    consumer_sees : ConsumerSees s.queue xs s.consumer

module _ {T : Type 0} where
  -- No access of either thread breaks the order.
  Step-Sound : {s t : System T} → Step s t → Sound s → Sound t
  Step-Sound (load_tail s item e) v = record {
    xs = v.xs;
    sound = v.sound;
    in_order = v.in_order;
    producer_sees = (refl, refl);
    consumer_sees = v.consumer_sees;
  }
  Step-Sound (full s item i n e is) v = record {
    xs = v.xs;
    sound = v.sound;
    in_order = v.in_order;
    producer_sees = tt;
    consumer_sees = v.consumer_sees;
  }
  Step-Sound (not_full s item i n e free) v =
      let sees = subst (ProducerSees s.queue v.xs) e v.producer_sees in
      let test : (n == s.queue.head) ≡ (length v.xs + 1 == s.queue.capacity) =
        ap (λ k. k == s.queue.head) sees.1 ∙ full_test s.queue v.xs v.sound in
      record {
        xs = v.xs;
        sound = v.sound;
        in_order = v.in_order;
        producer_sees = (sees.0, sees.1, ground (arith, v.sound.room));
        consumer_sees = v.consumer_sees;
      }
  Step-Sound (write_cell s item i n e) v =
      let sees = subst (ProducerSees s.queue v.xs) e v.producer_sees in
      let (written, at_cell) = written-IsQueue s.queue v.xs item v.sound in
      record {
        xs = v.xs;
        sound =
            subst (λ k. IsQueue (record (s.queue) { buffer = set k item s.queue.buffer }) v.xs)
              (sym sees.0) written;
        in_order = v.in_order;
        producer_sees = (
          sees.0,
          sees.1,
          sees.2,
          subst (λ k. get_elem? (set k item s.queue.buffer) k ≡ some item) (sym sees.0) at_cell,
        );
        consumer_sees =
            subst
              (λ k.
                ConsumerSees (record (s.queue) { buffer = set k item s.queue.buffer }) v.xs
                  s.consumer)
              (sym sees.0) (consumer-write s.queue v.xs item s.consumer v.sound v.consumer_sees);
      }
  Step-Sound (store_tail s item i n e) v =
      let sees = subst (ProducerSees s.queue v.xs) e v.producer_sees in
      let at_cell = subst (λ k. get_elem? s.queue.buffer k ≡ some item) sees.0 sees.3 in
      record {
        xs = v.xs ++ item ∷ [];
        sound =
            subst (λ k. IsQueue (record (s.queue) { tail = k }) (v.xs ++ item ∷ [])) (sym sees.1)
              (stored-IsQueue s.queue v.xs item v.sound sees.2 at_cell);
        in_order = ap (λ ys. ys ++ item ∷ []) v.in_order ∙ append_assoc s.popped v.xs (item ∷ []);
        producer_sees = tt;
        consumer_sees = consumer-store s.queue v.xs item n s.consumer v.consumer_sees;
      }
  Step-Sound (load_head s e) v = record {
    xs = v.xs;
    sound = v.sound;
    in_order = v.in_order;
    producer_sees = v.producer_sees;
    consumer_sees = refl;
  }
  Step-Sound (empty s i e is) v = record {
    xs = v.xs;
    sound = v.sound;
    in_order = v.in_order;
    producer_sees = v.producer_sees;
    consumer_sees = tt;
  }
  Step-Sound (not_empty s i e some_left) v =
      let sees = subst (ConsumerSees s.queue v.xs) e v.consumer_sees in
      let test : (i == s.queue.tail) ≡ (length v.xs == 0) =
        ap (λ k. k == s.queue.tail) sees ∙ empty_test s.queue v.xs v.sound in
      record {
        xs = v.xs;
        sound = v.sound;
        in_order = v.in_order;
        producer_sees = v.producer_sees;
        consumer_sees = (sees, ground arith);
      }
  Step-Sound (copy_item s i item e) v =
      let sees = subst (ConsumerSees s.queue v.xs) e v.consumer_sees in
      let at_cell = first_cell s.queue v.xs item v.sound sees.1 in
      record {
        xs = v.xs;
        sound = v.sound;
        in_order = v.in_order;
        producer_sees = v.producer_sees;
        consumer_sees = (
          sees.0,
          sees.1,
          subst (λ k. get_elem? s.queue.buffer k ≡ some (read_cell s.queue k item)) (sym sees.0)
              at_cell,
        );
      }
  Step-Sound (store_head s i item e) v =
      let sees = subst (ConsumerSees s.queue v.xs) e v.consumer_sees in
      let at_cell = subst (λ k. get_elem? s.queue.buffer k ≡ some item) sees.0 sees.2 in
      elim (List-cases v.xs) [
        | inl none_left ↦ absurd (omega (arith, sees.1, ap length none_left))
        | inr (x, rest, e') ↦
            let held = subst (IsQueue s.queue) e' v.sound in
            let same : x ≡ item = some_injective (sym held.holds.0 ∙ at_cell) in
            let order = subst (λ ys. s.pushed ≡ s.popped ++ ys) e' v.in_order in
            record {
              xs = rest;
              sound =
                  subst (λ k. IsQueue (record (s.queue) { head = next_index s.queue k }) rest)
                    (sym sees.0) (released-IsQueue s.queue x rest held);
              in_order =
                  order
                  ∙ sym (append_assoc s.popped (x ∷ []) rest)
                  ∙ ap (λ y. (s.popped ++ y ∷ []) ++ rest) same;
              producer_sees =
                  producer-release s.queue x rest (next_index s.queue i) s.producer
                    (subst (λ ys. ProducerSees s.queue ys s.producer) e' v.producer_sees);
              consumer_sees = tt;
            }
      ]

  Reachable-Sound :
      {fresh : T} {capacity : ℕ} {s : System T}
      → 0 < capacity
      → Reachable fresh capacity s
      → Sound s
  Reachable-Sound {fresh} {capacity} h begin = record {
    xs = [];
    sound = new_queue-IsQueue fresh capacity h;
    in_order = refl;
    producer_sees = tt;
    consumer_sees = tt;
  }
  Reachable-Sound h (next s t r step) = Step-Sound step (Reachable-Sound h r)

  Step-capacity : {s t : System T} → Step s t → t.queue.capacity ≡ s.queue.capacity
  Step-capacity (load_tail s item e) = refl
  Step-capacity (full s item i n e is) = refl
  Step-capacity (not_full s item i n e free) = refl
  Step-capacity (write_cell s item i n e) = refl
  Step-capacity (store_tail s item i n e) = refl
  Step-capacity (load_head s e) = refl
  Step-capacity (empty s i e is) = refl
  Step-capacity (not_empty s i e some_left) = refl
  Step-capacity (copy_item s i item e) = refl
  Step-capacity (store_head s i item e) = refl

  Reachable-capacity :
      {fresh : T} {capacity : ℕ} {s : System T}
      → Reachable fresh capacity s
      → s.queue.capacity ≡ capacity
  unfolding new_queue
  Reachable-capacity begin = refl
  Reachable-capacity (next s t r step) = Step-capacity step ∙ Reachable-capacity r

  -- However the accesses of producer and consumer interleave, taken in one order, from a new
  -- queue of a capacity above zero: what has been popped followed by what the queue holds is what
  -- has been pushed, in this order, and the queue holds fewer items than its capacity.
  pub Reachable-fifo :
      (fresh : T) (capacity : ℕ) (s : System T)
      → 0 < capacity
      → Reachable fresh capacity s
      → (xs : List T) × IsQueue s.queue xs × (s.pushed ≡ s.popped ++ xs) × (length xs < capacity)
  Reachable-fifo fresh capacity s h r =
      let v = Reachable-Sound h r in
      (v.xs, v.sound, v.in_order, omega (arith, v.sound.room, Reachable-capacity r))
