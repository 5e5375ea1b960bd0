-- ===== src/SpscQueue/Threads.antt =====
-- The two threads of utils/spsc_queue.h, interleaved at each access of `head_`, `tail_` and the buffer.
-- The accesses are taken in one order, which the acquire and release orderings of the source give for
-- what the threads exchange.
pub mod Seen
pub mod Interleaving
use cpp_matching_engine.Prelude.{
  ℕ, ◌+◌, ◌<◌, ◌≡◌, inl, inr, refl, true, false, List, [], ◌∷◌, ◌++◌, some, get_elem?, set, length,
  length-append, get_elem?-set_other, ◌==◌, nat_eq, arith, ap, sym, ◌∙◌, subst, append_assoc, ◌≢◌,
  List-cases, some_injective,
}
use cpp_matching_engine.SpscQueue.{SpscQueue, new_queue, next_index, read_cell}
use cpp_matching_engine.SpscQueue.Fifo.{
  IsQueue, full_test, empty_test, written-IsQueue, stored-IsQueue, released-IsQueue,
  new_queue-IsQueue,
}

-- Where the producer stands in `push`, with its local variables.
pub data Producer (T : Type 0) : Type 0 where
  idle : Producer T
  reserving : T → (current_tail next_tail : ℕ) → Producer T
  writing : T → (current_tail next_tail : ℕ) → Producer T
  publishing : T → (current_tail next_tail : ℕ) → Producer T

-- Where the consumer stands in `pop`.
pub data Consumer (T : Type 0) : Type 0 where
  waiting : Consumer T
  looking : (current_head : ℕ) → Consumer T
  reading : (current_head : ℕ) → Consumer T
  releasing : (current_head : ℕ) → T → Consumer T

-- The queue, the two threads, and the items that `push` has taken and `pop` has given so far.
pub record System (T : Type 0) : Type 0 where
  pub queue : SpscQueue T
  pub producer : Producer T
  pub consumer : Consumer T
  pub pushed : List T
  pub popped : List T

module _ {T : Type 0} where
  abbrev pub start : T → ℕ → System T
  start fresh capacity = record {
    queue = new_queue fresh capacity;
    producer = idle;
    consumer = waiting;
    pushed = [];
    popped = [];
  }

  -- One access of either thread.
  pub data Step : System T → System T → Type 0 where
    load_tail :
        (s : System T) (item : T)
        → s.producer ≡ idle
        → Step s
            (record s { producer = reserving item s.queue.tail (next_index s.queue s.queue.tail) })
    full :
        (s : System T) (item : T) (current_tail next_tail : ℕ)
        → s.producer ≡ reserving item current_tail next_tail
        → (next_tail == s.queue.head) ≡ true
        → Step s (record s { producer = idle })
    not_full :
        (s : System T) (item : T) (current_tail next_tail : ℕ)
        → s.producer ≡ reserving item current_tail next_tail
        → (next_tail == s.queue.head) ≡ false
        → Step s (record s { producer = writing item current_tail next_tail })
    write_cell :
        (s : System T) (item : T) (current_tail next_tail : ℕ)
        → s.producer ≡ writing item current_tail next_tail
        → Step s (record s {
          queue = record (s.queue) { buffer = set current_tail item s.queue.buffer };
          producer = publishing item current_tail next_tail;
        })
    store_tail :
        (s : System T) (item : T) (current_tail next_tail : ℕ)
        → s.producer ≡ publishing item current_tail next_tail
        → Step s (record s {
          queue = record (s.queue) { tail = next_tail };
          producer = idle;
          pushed = s.pushed ++ item ∷ [];
        })
    load_head :
        (s : System T)
        → s.consumer ≡ waiting
        → Step s (record s { consumer = looking s.queue.head })
    empty :
        (s : System T) (current_head : ℕ)
        → s.consumer ≡ looking current_head
        → (current_head == s.queue.tail) ≡ true
        → Step s (record s { consumer = waiting })
    not_empty :
        (s : System T) (current_head : ℕ)
        → s.consumer ≡ looking current_head
        → (current_head == s.queue.tail) ≡ false
        → Step s (record s { consumer = reading current_head })
    copy_item :
        (s : System T) (current_head : ℕ) (item : T)
        → s.consumer ≡ reading current_head
        → Step s
            (record s { consumer = releasing current_head (read_cell s.queue current_head item) })
    store_head :
        (s : System T) (current_head : ℕ) (item : T)
        → s.consumer ≡ releasing current_head item
        → Step s (record s {
          queue = record (s.queue) { head = next_index s.queue current_head };
          consumer = waiting;
          popped = s.popped ++ item ∷ [];
        })

  -- The systems that an interleaving of the two threads comes to.
  pub data Reachable (fresh : T) (capacity : ℕ) : System T → Type 0 where
    begin : Reachable fresh capacity (start fresh capacity)
    next : (s t : System T) → Reachable fresh capacity s → Step s t → Reachable fresh capacity t
