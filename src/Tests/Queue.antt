-- ===== src/Tests/Queue.antt =====
-- The theorems on the queue, on a ring of three cells.
use cpp_matching_engine.Prelude.{
  ℕ, ◌+◌, ◌<◌, ◌≡◌, ◌⊎◌, refl, true, false, List, [], ◌∷◌, ◌++◌, length, arith, nat_eq,
}
use cpp_matching_engine.SpscQueue.{SpscQueue, new_queue, push, pop}
use cpp_matching_engine.SpscQueue.Fifo.{IsQueue, push-IsQueue, pop-IsQueue}
use cpp_matching_engine.SpscQueue.Threads.Interleaving.{Reachable-fifo}
use cpp_matching_engine.SpscQueue.Threads.{
  System, idle, reserving, writing, publishing, looking, start, load_tail, not_full, write_cell,
  store_tail, load_head, Reachable, begin, next,
}

abbrev two : List ℕ
two = 5 ∷ 6 ∷ []

-- The items 5 and 6 in the last cell and the first.
abbrev wrapped : SpscQueue ℕ
wrapped = record { buffer = 6 ∷ 0 ∷ 5 ∷ []; capacity = 3; tail = 1; head = 2 }

wrapped-IsQueue : IsQueue wrapped two
wrapped-IsQueue = record {
  sized = refl;
  room = omega arith;
  head_in = omega arith;
  tail_at = refl;
  holds = (refl, (refl, tt));
}

push-IsQueue_example :
    let (q', ok) = push 7 wrapped in
    ((length two + 1 ≡ wrapped.capacity) × (ok ≡ false) × (q' ≡ wrapped))
    ⊎ ((length two + 1 < wrapped.capacity) × (ok ≡ true) × IsQueue q' (two ++ 7 ∷ []))
push-IsQueue_example = push-IsQueue wrapped two 7 wrapped-IsQueue

pop-IsQueue_example :
    let (q', out, ok) = pop 0 wrapped in
    ((two ≡ []) × (ok ≡ false) × (out ≡ 0) × (q' ≡ wrapped))
    ⊎ ((ys : List ℕ) × (two ≡ out ∷ ys) × (ok ≡ true) × IsQueue q' ys)
pop-IsQueue_example = pop-IsQueue wrapped two 0 wrapped-IsQueue

-- The producer has stored 4 and is about to write 8, while the consumer looks at the queue.
abbrev ring : SpscQueue ℕ
ring = record { buffer = 4 ∷ 0 ∷ 0 ∷ []; capacity = 3; tail = 1; head = 0 }

abbrev midway : System ℕ
midway = record {
  queue = ring;
  producer = writing 8 1 2;
  consumer = looking 0;
  pushed = 4 ∷ [];
  popped = [];
}

midway-Reachable : Reachable 0 3 midway
unfolding new_queue
midway-Reachable =
    let s0 : System ℕ = start 0 3 in
    let s1 : System ℕ = record s0 { producer = reserving 4 0 1 } in
    let s2 : System ℕ = record s1 { producer = writing 4 0 1 } in
    let s3 : System ℕ = record s2 {
      queue = record (s2.queue) { buffer = 4 ∷ 0 ∷ 0 ∷ [] };
      producer = publishing 4 0 1;
    } in
    let s4 : System ℕ = record s3 { queue = ring; producer = idle; pushed = 4 ∷ [] } in
    let s5 : System ℕ = record s4 { consumer = looking 0 } in
    let s6 : System ℕ = record s5 { producer = reserving 8 1 2 } in
    next s6 midway
      (next s5 s6
        (next s4 s5
          (next s3 s4
            (next s2 s3
              (next s1 s2 (next s0 s1 begin (load_tail s0 4 refl)) (not_full s1 4 0 1 refl refl))
              (write_cell s2 4 0 1 refl))
            (store_tail s3 4 0 1 refl))
          (load_head s4 refl))
        (load_tail s5 8 refl))
      (not_full s6 8 1 2 refl refl)

Reachable-fifo_example :
    (xs : List ℕ) × IsQueue ring xs × (midway.pushed ≡ midway.popped ++ xs) × (length xs < 3)
Reachable-fifo_example = Reachable-fifo 0 3 midway (omega arith) midway-Reachable
