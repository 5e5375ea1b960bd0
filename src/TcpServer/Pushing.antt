-- ===== src/TcpServer/Pushing.antt =====
-- The push loop: it ends with the item in the queue once the consumer pops.
use cpp_matching_engine.Prelude.{
  ℕ, ◌≡◌, refl, ◌∙◌, List, [], ◌∷◌, ◌++◌, some, true, false, if◌then◌else◌, Bool-cases, inl, inr,
  ◌⊎◌, length, length-drop, drop, ◌==◌, nat_eq, ◌+◌, ltb, ◌<◌, arith,
}
use cpp_matching_engine.SpscQueue.{SpscQueue, push, next_index}
use cpp_matching_engine.SpscQueue.Fifo.{IsQueue, push-IsQueue}
use cpp_matching_engine.TcpServer.{Moment, pop_many, push_loop}
use cpp_matching_engine.TcpServer.Popping.{pop_many-drops}

-- While the server runs, the consumer pops at some moment.
abbrev pub Serves : List Moment → Type 0
Serves [] = ⊥
Serves (t ∷ ts) = (t.running ≡ true) × ((0 < t.pops) ⊎ Serves ts)

-- How many items the consumer pops at the first moment at which it pops any.
abbrev pub first_pops : List Moment → ℕ
first_pops [] = 0
first_pops (t ∷ ts) = if t.pops == 0 then first_pops ts else t.pops

Serves-first_pops : (ts : List Moment) → Serves ts → 0 < first_pops ts
Serves-first_pops [] h = absurd h
Serves-first_pops (t ∷ ts) (running, h) = elim (Bool-cases (t.pops == 0)) [
  | inl e ↦ elim h [
    | inl pops ↦ absurd (ground arith)
    | inr later ↦ rw e (Serves-first_pops ts later)
  ]
  | inr e ↦ rw e (ground arith)
]

module _ {T : Type 0} where
  -- A list of items, in a ring of the capacity, after the push of another: when it is full, once
  -- the consumer has popped.
  abbrev pub pushed : ℕ → T → List Moment → List T → List T
  pushed capacity item ts xs =
      (if ltb (length xs + 1) capacity then xs else drop (first_pops ts) xs) ++ item ∷ []

  push_loop-pushed :
      (item : T) (ts : List Moment) (q : SpscQueue T)
      → (push item q).1 ≡ true
      → push_loop item ts q ≡ some ((push item q).0, true)
  unfolding push_loop
  push_loop-pushed item [] q e = rw (push_loop, e) refl
  push_loop-pushed item (t ∷ ts) q e = rw (push_loop, e) refl

  pub push_loop-refused :
      (item : T) (t : Moment) (ts : List Moment) (q : SpscQueue T)
      → (push item q).1 ≡ false
      → push_loop item (t ∷ ts) q
        ≡ (if t.running then push_loop item ts (pop_many item t.pops q) else some (q, false))
  unfolding push_loop
  push_loop-refused item t ts q e = rw (push_loop, e) refl

  push-capacity : (item : T) (q : SpscQueue T) → (push item q).0.capacity ≡ q.capacity
  unfolding push
  push-capacity item q = elim (Bool-cases (next_index q q.tail == q.head)) [
    | inl e ↦ rw e refl
    | inr e ↦ rw e refl
  ]

  -- The loop ends with success, and with the items in the ring that `pushed` says.
  abbrev pub Pushes : T → List Moment → SpscQueue T → List T → Type 0
  Pushes item ts q xs =
      (p : SpscQueue T) × (push_loop item ts q ≡ some (p, true))
      × IsQueue p (pushed q.capacity item ts xs)
      × (p.capacity ≡ q.capacity)

  pub push_loop-room :
      (item : T) (ts : List Moment) (q : SpscQueue T) (xs : List T)
      → IsQueue q xs
      → length xs + 1 < q.capacity
      → Pushes item ts q xs
  push_loop-room item ts q xs v room = elim (push-IsQueue q xs item v) [
    | inl (full, ok, same) ↦ absurd (omega arith)
    | inr (more, ok, w) ↦
        let fits : ltb (length xs + 1) q.capacity ≡ true = ground arith in
        ((push item q).0, push_loop-pushed item ts q ok, rw fits w, push-capacity item q)
  ]

  -- On a full ring, the loop goes on after a refusal as it would without the moment if the
  -- consumer does not pop then, and pushes if it does.
  pub push_loop-waits :
      (item : T) (t : Moment) (ts : List Moment) (q : SpscQueue T) (xs : List T)
      → IsQueue q xs
      → length xs + 1 ≡ q.capacity
      → t.running ≡ true
      → t.pops ≡ 0
      → push_loop item (t ∷ ts) q ≡ push_loop item ts q
  push_loop-waits item t ts q xs v full running pops = elim (push-IsQueue q xs item v) [
    | inr (more, ok, w) ↦ absurd (omega arith)
    | inl (size, ok, same) ↦ push_loop-refused item t ts q ok ∙ rw (running, pops) refl
  ]

  pub push_loop-popped :
      (item : T) (t : Moment) (ts : List Moment) (q : SpscQueue T) (xs : List T)
      → IsQueue q xs
      → 1 < q.capacity
      → length xs + 1 ≡ q.capacity
      → t.running ≡ true
      → 0 < t.pops
      → Pushes item (t ∷ ts) q xs
  push_loop-popped item t ts q xs v h full running pops = elim (push-IsQueue q xs item v) [
    | inr (more, ok, w) ↦ absurd (omega arith)
    | inl (size, ok, same) ↦
        let (w, kept) = pop_many-drops item t.pops q xs v in
        let (p, run, last, wide) =
          push_loop-room item ts (pop_many item t.pops q) (drop t.pops xs) w
            (omega (arith, kept, length-drop t.pops xs)) in
        let fits : ltb (length (drop t.pops xs) + 1) (pop_many item t.pops q).capacity ≡ true =
          ground (arith, kept, length-drop t.pops xs) in
        let no_room : ltb (length xs + 1) q.capacity ≡ false = ground arith in
        let some_pops : (t.pops == 0) ≡ false = ground arith in
        (
          p,
          push_loop-refused item t ts q ok ∙ rw running run,
          rw (no_room, some_pops) (rw fits at last),
          wide ∙ kept,
        )
  ]

  pub push_loop-Pushes :
      (item : T) (ts : List Moment) (q : SpscQueue T) (xs : List T)
      → IsQueue q xs
      → 1 < q.capacity
      → Serves ts
      → Pushes item ts q xs
  push_loop-Pushes item [] q xs v h serves = absurd serves
  push_loop-Pushes item (t ∷ ts) q xs v h (running, serves) =
      elim (Bool-cases (ltb (length xs + 1) q.capacity)) [
        | inl room ↦ push_loop-room item (t ∷ ts) q xs v (ground arith)
        | inr no_room ↦
            let full : length xs + 1 ≡ q.capacity = ground (arith, v.room) in
            elim (Bool-cases (t.pops == 0)) [
              | inr e ↦ push_loop-popped item t ts q xs v h full running (ground arith)
              | inl e ↦ elim serves [
                | inl pops ↦ absurd (ground arith)
                | inr later ↦
                    let (p, run, last, wide) = push_loop-Pushes item ts q xs v h later in
                    (
                      p,
                      push_loop-waits item t ts q xs v full running (ground arith) ∙ run,
                      rw (no_room, e) (rw no_room at last),
                      wide,
                    )
              ]
            ]
      ]

  -- The loop has pushed the item behind those that are left of `xs`.
  abbrev pub HasPushed : T → List Moment → SpscQueue T → List T → Type 0
  HasPushed item ts q xs =
      (p : SpscQueue T) × (k : ℕ) × (push_loop item ts q ≡ some (p, true))
      × IsQueue p (drop k xs ++ item ∷ [])

  -- On a ring of a capacity above one that holds a list of items, the push loop ends with success
  -- if, at the refusals it may meet, the server is running up to a moment at which the consumer
  -- pops; the ring then holds what is left of the list with the new item behind it.
  pub push_loop-HasPushed :
      (item : T) (ts : List Moment) (q : SpscQueue T) (xs : List T)
      → IsQueue q xs
      → 1 < q.capacity
      → Serves ts
      → HasPushed item ts q xs
  push_loop-HasPushed item ts q xs v h serves =
      let (p, run, last, wide) = push_loop-Pushes item ts q xs v h serves in
      elim (Bool-cases (ltb (length xs + 1) q.capacity)) [
        | inl room ↦ (p, 0, run, rw room at last)
        | inr no_room ↦ (p, first_pops ts, run, rw no_room at last)
      ]
