-- ===== src/SpscQueue/Threads/Seen.antt =====
-- What the local variables of a thread of utils/spsc_queue.h say of the queue.
use cpp_matching_engine.Prelude.{
  ℕ, ◌+◌, ◌<◌, ◌≡◌, refl, List, [], ◌∷◌, ◌++◌, some, get_elem?, set, length, length-append,
  get_elem?-set_other, nat_eq, arith, ◌∙◌, ◌≢◌,
}
use cpp_matching_engine.SpscQueue.{SpscQueue, next_index, read_cell}
use cpp_matching_engine.SpscQueue.Fifo.{IsQueue}
use cpp_matching_engine.SpscQueue.Threads.{
  Producer, Consumer, idle, reserving, writing, publishing, waiting, looking, reading, releasing,
}

module _ {T : Type 0} where
  -- What the locals of the producer say of a queue that holds `xs`.
  abbrev pub ProducerSees : SpscQueue T → List T → Producer T → Type 0
  ProducerSees q xs idle = Unit
  ProducerSees q xs (reserving item t n) = (t ≡ q.tail) × (n ≡ next_index q q.tail)
  ProducerSees q xs (writing item t n) =
      (t ≡ q.tail) × (n ≡ next_index q q.tail) × (length xs + 1 < q.capacity)
  ProducerSees q xs (publishing item t n) =
      (t ≡ q.tail)
      × (n ≡ next_index q q.tail)
      × (length xs + 1 < q.capacity)
      × (get_elem? q.buffer t ≡ some item)

  abbrev pub ConsumerSees : SpscQueue T → List T → Consumer T → Type 0
  ConsumerSees q xs waiting = Unit
  ConsumerSees q xs (looking h) = h ≡ q.head
  ConsumerSees q xs (reading h) = (h ≡ q.head) × (0 < length xs)
  ConsumerSees q xs (releasing h item) =
      (h ≡ q.head) × (0 < length xs) × (get_elem? q.buffer h ≡ some item)

  -- What one thread sees outlasts the accesses of the other.
  pub consumer-write :
      (q : SpscQueue T) (xs : List T) (x : T) (c : Consumer T)
      → IsQueue q xs
      → ConsumerSees q xs c
      → ConsumerSees (record q { buffer = set q.tail x q.buffer }) xs c
  consumer-write q xs x waiting v h = tt
  consumer-write q xs x (looking i) v h = h
  consumer-write q xs x (reading i) v h = h
  consumer-write q xs x (releasing i item) v h =
      let at_head = h.0 in
      let some_left = h.1 in
      let at_tail = v.tail_at in
      let apart : q.tail ≢ i = λ e. absurd (ground (arith, v.room, v.head_in)) in
      (h.0, h.1, get_elem?-set_other q.tail i x q.buffer apart ∙ h.2)

  pub consumer-store :
      (q : SpscQueue T) (xs : List T) (x : T) (n : ℕ) (c : Consumer T)
      → ConsumerSees q xs c
      → ConsumerSees (record q { tail = n }) (xs ++ x ∷ []) c
  consumer-store q xs x n waiting h = tt
  consumer-store q xs x n (looking i) h = h
  consumer-store q xs x n (reading i) h = (h.0, omega (arith, h.1, length-append xs (x ∷ [])))
  consumer-store q xs x n (releasing i item) h =
      (h.0, omega (arith, h.1, length-append xs (x ∷ [])), h.2)

  pub producer-release :
      (q : SpscQueue T) (x : T) (xs : List T) (n : ℕ) (p : Producer T)
      → ProducerSees q (x ∷ xs) p
      → ProducerSees (record q { head = n }) xs p
  producer-release q x xs n idle h = tt
  producer-release q x xs n (reserving item t m) h = h
  producer-release q x xs n (writing item t m) h = (h.0, h.1, omega (arith, h.2))
  producer-release q x xs n (publishing item t m) h = (h.0, h.1, omega (arith, h.2), h.3)

  pub first_cell :
      (q : SpscQueue T) (xs : List T) (item : T)
      → IsQueue q xs
      → 0 < length xs
      → get_elem? q.buffer q.head ≡ some (read_cell q q.head item)
  first_cell q [] item v h = absurd (omega arith)
  first_cell q (x ∷ xs) item v h = v.holds.0 ∙ rw (read_cell, v.holds.0) refl
