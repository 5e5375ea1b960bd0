-- ===== src/SpscQueue/Fifo.antt =====
-- utils/spsc_queue.h: the ring buffer as a first-in first-out queue of at most `capacity - 1` items.
use native.Mathlib.Nat.{mod-eq_of_lt, mod_self}
use cpp_matching_engine.Prelude.{
  ℕ, ◌+◌, ◌-◌, ◌%◌, ◌<◌, ◌≡◌, ◌⊎◌, inl, inr, refl, true, false, List, [], ◌∷◌, ◌++◌, some,
  get_elem?, set, length, length-append, length-set, get_elem?-set, get_elem?-set_other, ◌==◌,
  nat_eq, if◌then◌else◌, arith, ltb, length-replicate, Bool-cases, ap, ◌≢◌, sym, ◌∙◌, subst,
}
use cpp_matching_engine.SpscQueue.{SpscQueue, new_queue, next_index, read_cell, push, pop}

-- The index `n` cells behind `i` on a ring.
abbrev pub ahead : ℕ → ℕ → ℕ → ℕ
ahead capacity i n = if ltb (i + n) capacity then i + n else i + n - capacity

pub next-ahead : (capacity i : ℕ) → i < capacity → (i + 1) % capacity ≡ ahead capacity i 1
next-ahead capacity i h = elim (Bool-cases (ltb (i + 1) capacity)) [
  | inl e ↦ rw e (mod-eq_of_lt (ground arith))
  | inr e ↦
      let at_end : i + 1 ≡ capacity = ground arith in
      rw (e, at_end) (omega (arith, mod_self capacity))
]

module _ {T : Type 0} where
  -- The cells from an index on hold the items of a list.
  abbrev pub Holds : List T → ℕ → ℕ → List T → Type 0
  Holds buffer capacity i [] = Unit
  Holds buffer capacity i (x ∷ xs) =
      (get_elem? buffer i ≡ some x) × Holds buffer capacity (ahead capacity i 1) xs

  -- A queue that holds the items of a list, oldest first.
  pub record IsQueue (q : SpscQueue T) (xs : List T) : Type 0 where
    pub sized : length q.buffer ≡ q.capacity
    pub room : length xs < q.capacity
    pub head_in : q.head < q.capacity
    pub tail_at : q.tail ≡ ahead q.capacity q.head (length xs)
    pub holds : Holds q.buffer q.capacity q.head xs

  -- A cell that is not among those of the list may be written.
  pub Holds-set :
      (buffer : List T) (capacity i j : ℕ) (x : T) (xs : List T)
      → i < capacity
      → length xs < capacity
      → j ≡ ahead capacity i (length xs)
      → Holds buffer capacity i xs
      → Holds (set j x buffer) capacity i xs
  Holds-set buffer capacity i j x [] h room at_tail held = tt
  Holds-set buffer capacity i j x (y ∷ ys) h room at_tail held =
      let apart : j ≢ i = λ e. absurd (ground arith) in
      (
        rw (get_elem?-set_other j i x buffer apart) held.0,
        Holds-set buffer capacity (ahead capacity i 1) j x ys (ground arith) (omega arith)
            (ground arith) held.1,
      )

  pub Holds-append :
      (buffer : List T) (capacity i j : ℕ) (x : T) (xs : List T)
      → i < capacity
      → length xs < capacity
      → j ≡ ahead capacity i (length xs)
      → get_elem? buffer j ≡ some x
      → Holds buffer capacity i xs
      → Holds buffer capacity i (xs ++ x ∷ [])
  Holds-append buffer capacity i j x [] h room at_tail last held =
      let same : j ≡ i = ground arith in (rw (sym same) last, tt)
  Holds-append buffer capacity i j x (y ∷ ys) h room at_tail last held = (
    held.0,
    Holds-append buffer capacity (ahead capacity i 1) j x ys (ground arith) (omega arith)
        (ground arith) last held.1,
  )

module _ {T : Type 0} where
  pub tail_in : (q : SpscQueue T) (xs : List T) → IsQueue q xs → q.tail < q.capacity
  tail_in q xs v = let at_tail = v.tail_at in ground (arith, v.room, v.head_in)

  -- The test of `push` sees whether one cell is left, and that of `pop` whether there is an item.
  pub full_test :
      (q : SpscQueue T) (xs : List T)
      → IsQueue q xs
      → (next_index q q.tail == q.head) ≡ (length xs + 1 == q.capacity)
  full_test q xs v =
      let wraps = next-ahead q.capacity q.tail (tail_in q xs v) in
      let at_tail = v.tail_at in ground (arith, v.room, v.head_in)

  pub empty_test :
      (q : SpscQueue T) (xs : List T) → IsQueue q xs → (q.head == q.tail) ≡ (length xs == 0)
  empty_test q xs v = let at_tail = v.tail_at in ground (arith, v.room, v.head_in)

  -- Writing the cell at the tail.
  pub written-IsQueue :
      (q : SpscQueue T) (xs : List T) (x : T)
      → IsQueue q xs
      → IsQueue (record q { buffer = set q.tail x q.buffer }) xs
        × (get_elem? (set q.tail x q.buffer) q.tail ≡ some x)
  written-IsQueue q xs x v = (
    record {
      sized = length-set q.tail x q.buffer ∙ v.sized;
      room = v.room;
      head_in = v.head_in;
      tail_at = v.tail_at;
      holds = Holds-set q.buffer q.capacity q.head q.tail x xs v.head_in v.room v.tail_at v.holds;
    },
    get_elem?-set q.tail x q.buffer (omega (arith, tail_in q xs v, v.sized)),
  )

  -- Moving the tail behind a written cell.
  pub stored-IsQueue :
      (q : SpscQueue T) (xs : List T) (x : T)
      → IsQueue q xs
      → length xs + 1 < q.capacity
      → get_elem? q.buffer q.tail ≡ some x
      → IsQueue (record q { tail = next_index q q.tail }) (xs ++ x ∷ [])
  stored-IsQueue q xs x v more at_cell = record {
    sized = v.sized;
    room = omega (arith, length-append xs (x ∷ []));
    head_in = v.head_in;
    tail_at =
        let wraps = next-ahead q.capacity q.tail (tail_in q xs v) in
        let at_tail = v.tail_at in ground (arith, length-append xs (x ∷ []), v.room, v.head_in);
    holds =
        Holds-append q.buffer q.capacity q.head q.tail x xs v.head_in v.room v.tail_at at_cell
          v.holds;
  }

  -- Moving the head behind the first item.
  pub released-IsQueue :
      (q : SpscQueue T) (x : T) (xs : List T)
      → IsQueue q (x ∷ xs)
      → IsQueue (record q { head = next_index q q.head }) xs
  released-IsQueue q x xs v =
      let wraps = next-ahead q.capacity q.head v.head_in in
      record {
        sized = v.sized;
        room = omega (arith, v.room);
        head_in = let h = v.head_in in ground arith;
        tail_at = let at_tail = v.tail_at in ground (arith, v.room, v.head_in);
        holds = rw wraps v.holds.1;
      }

  -- A new queue of any capacity above zero is empty.
  pub new_queue-IsQueue :
      (fresh : T) (capacity : ℕ) → 0 < capacity → IsQueue (new_queue fresh capacity) []
  unfolding new_queue
  new_queue-IsQueue fresh capacity h = record {
    sized = length-replicate capacity fresh;
    room = h;
    head_in = h;
    tail_at = ground arith;
    holds = tt;
  }

  -- On a ring that holds a list of items, push refuses and changes nothing if the items and one
  -- more make the capacity, and else it leaves a ring that holds the items with the new one
  -- behind them.
  pub push-IsQueue :
      (q : SpscQueue T) (xs : List T) (x : T)
      → IsQueue q xs
      → let (q', ok) = push x q in
        ((length xs + 1 ≡ q.capacity) × (ok ≡ false) × (q' ≡ q))
        ⊎ ((length xs + 1 < q.capacity) × (ok ≡ true) × IsQueue q' (xs ++ x ∷ []))
  unfolding push
  push-IsQueue q xs x v = elim (Bool-cases (length xs + 1 == q.capacity)) [
    | inl e ↦
        let run : push x q ≡ (q, false) = rw (push, full_test q xs v, e) refl in
        inl (ground arith, ap (λ r. r.1) run, ap (λ r. r.0) run)
    | inr e ↦
        let more : length xs + 1 < q.capacity = ground (arith, v.room) in
        let (w, at_cell) = written-IsQueue q xs x v in
        let stored =
          stored-IsQueue (record q { buffer = set q.tail x q.buffer }) xs x w more at_cell in
        inr (more, rw (push, full_test q xs v, e) refl, rw (push, full_test q xs v, e) stored)
  ]

  -- On a ring that holds a list of items, pop refuses and changes nothing if there is none, and
  -- else it gives the first and leaves a ring that holds the others.
  pub pop-IsQueue :
      (q : SpscQueue T) (xs : List T) (item : T)
      → IsQueue q xs
      → let (q', out, ok) = pop item q in
        ((xs ≡ []) × (ok ≡ false) × (out ≡ item) × (q' ≡ q))
        ⊎ ((ys : List T) × (xs ≡ out ∷ ys) × (ok ≡ true) × IsQueue q' ys)
  unfolding pop
  pop-IsQueue q [] item v =
      let run : pop item q ≡ (q, item, false) = rw (pop, empty_test q [] v) refl in
      inl (refl, ap (λ r. r.2) run, ap (λ r. r.1) run, ap (λ r. r.0) run)
  pop-IsQueue q (x ∷ xs) item v =
      let first : read_cell q q.head item ≡ x = rw (read_cell, v.holds.0) refl in
      let some_left : (q.head == q.tail) ≡ false = empty_test q (x ∷ xs) v ∙ ground arith in
      let run : pop item q ≡ (record q { head = next_index q q.head }, x, true) =
        rw (pop, some_left, first) refl in
      inr (
        xs,
        ap (λ y. y ∷ xs) (sym (ap (λ r. r.1) run)),
        ap (λ r. r.2) run,
        subst (λ r. IsQueue r.0 xs) (sym run) (released-IsQueue q x xs v),
      )
