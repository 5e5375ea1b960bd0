-- ===== src/SpscQueue.antt =====
-- utils/spsc_queue.h: the ring buffer between one producer and one consumer.
pub mod Fifo
pub mod Threads
use cpp_matching_engine.Prelude.{
  ℕ, ◌+◌, ◌%◌, Bool, true, false, List, Option, none, some, get_elem?, set, replicate, ◌==◌, nat_eq,
  if◌then◌else◌,
}

pub record SpscQueue (T : Type 0) : Type 0 where
  pub buffer : List T
  pub capacity : ℕ
  pub tail : ℕ
  pub head : ℕ

module _ {T : Type 0} where
  -- `buffer_.resize(capacity_)` fills the cells with `T()`, which is the argument `fresh`.
  unfoldable pub new_queue : T → ℕ → SpscQueue T
  new_queue fresh capacity = record {
    buffer = replicate capacity fresh;
    capacity = capacity;
    tail = 0;
    head = 0;
  }

  -- The index after another one, for the tail as for the head.
  abbrev pub next_index : SpscQueue T → ℕ → ℕ
  next_index q i = (i + 1) % q.capacity

  -- `buffer_[i]`, with `item` for a read out of range, which is undefined.
  abbrev pub read_cell : SpscQueue T → ℕ → T → T
  read_cell q i item = elim (get_elem? q.buffer i) [ none ↦ item | some x ↦ x ]

  unfoldable pub push : T → SpscQueue T → SpscQueue T × Bool
  push item q =
      let next_tail = next_index q q.tail in
      if next_tail == q.head
      then (q, false)
      else (record q { buffer = set q.tail item q.buffer; tail = next_tail }, true)

  -- `item` is what the caller's variable holds before the call; the result has what it holds after.
  unfoldable pub pop : T → SpscQueue T → SpscQueue T × T × Bool
  pop item q =
      if q.head == q.tail
      then (q, item, false)
      else (record q { head = next_index q q.head }, read_cell q q.head item, true)
