-- ===== src/ObjectPool/Ownership.antt =====
-- utils/object_pool.h: who holds the pointers of a pool.
use cpp_matching_engine.Prelude.{
  ℕ, zero, suc, ◌+◌, ◌<◌, ◌≡◌, refl, Bool, ◌&&◌, List, [], ◌∷◌, some, if◌then◌else◌, ltb, ◌==◌,
  nat_eq, arith, List-cases, inl, inr, ap,
}
use cpp_matching_engine.ObjectPool.{
  Pointer, ObjectPool, push_cells, allocate_block, new_pool, take_back, acquire, recycle,
}

abbrev same_pointer : Pointer → Pointer → Bool
same_pointer a x = a.0 == x.0 && a.1 == x.1

-- How often a pointer is in a list.
unfoldable pub held : Pointer → List Pointer → ℕ
held a [] = 0
held a (x ∷ xs) = (if same_pointer a x then 1 else 0) + held a xs

-- Whether a pointer is one of the pool's.
abbrev pub owned : ℕ → ObjectPool → Pointer → ℕ
owned block_size p a = if ltb a.0 p.blocks && ltb a.1 block_size then 1 else 0

-- Each pointer of the pool is either free or live, once, and no other pointer is either.
abbrev pub IsPool : ℕ → ObjectPool → List Pointer → Type 0
IsPool block_size p live = (a : Pointer) → held a p.free_list + held a live ≡ owned block_size p a

held-push_cells :
    (a : Pointer) (block n : ℕ) (xs : List Pointer)
    → held a (push_cells block n xs) ≡ (if a.0 == block && ltb a.1 n then 1 else 0) + held a xs
unfolding held push_cells
held-push_cells a block zero xs = ground arith
held-push_cells a block (suc i) xs = ground (arith, held-push_cells a block i xs)

allocate_block-IsPool :
    (block_size : ℕ) (p : ObjectPool) (live : List Pointer)
    → IsPool block_size p live
    → IsPool block_size (allocate_block block_size p) live
unfolding allocate_block
allocate_block-IsPool block_size p live v a =
    ground (arith, v a, held-push_cells a p.blocks block_size p.free_list)

-- A new pool, of which nothing is live.
pub new_pool-IsPool : (block_size : ℕ) → IsPool block_size (new_pool block_size) []
unfolding new_pool held
new_pool-IsPool block_size =
    allocate_block-IsPool block_size (record { blocks = 0; free_list = [] }) [] (λ a. ground arith)

take_back-IsPool :
    (block_size : ℕ) (p : ObjectPool) (live : List Pointer) (x : Pointer) (xs : List Pointer)
    → IsPool block_size p live
    → p.free_list ≡ x ∷ xs
    → (r : Pointer × ObjectPool) × (take_back p ≡ some r)
      × IsPool block_size r.1 (r.0 ∷ live)
      × (held r.0 live ≡ 0)
unfolding take_back held
take_back-IsPool block_size p live x xs v e =
    let counted = ap (held x) e in
    (
      (x, record p { free_list = xs }),
      rw (take_back, e) refl,
      λ a. omega (arith, v a, ap (held a) e),
      ground (arith, v x),
    )

-- On a pool of blocks that are not empty, whose pointers are each free or live, once, acquire
-- returns a pointer that nobody holds, and then the pool's pointers are each free or live, that one
-- live.
pub acquire-IsPool :
    (block_size : ℕ) (p : ObjectPool) (live : List Pointer)
    → 0 < block_size
    → IsPool block_size p live
    → (r : Pointer × ObjectPool) × (acquire block_size p ≡ some r)
      × IsPool block_size r.1 (r.0 ∷ live)
      × (held r.0 live ≡ 0)
unfolding acquire allocate_block push_cells
acquire-IsPool zero p live h v = absurd (omega arith)
acquire-IsPool (suc n) p live h v = elim (List-cases p.free_list) [
  | inl e ↦
      let w = allocate_block-IsPool (suc n) p live v in
      let (r, run, counts, fresh) =
        take_back-IsPool (suc n) (allocate_block (suc n) p) live (p.blocks, n)
          (push_cells p.blocks n p.free_list) w refl in
      (r, rw (acquire, e) run, counts, fresh)
  | inr (x, xs, e) ↦
      let (r, run, counts, fresh) = take_back-IsPool (suc n) p live x xs v e in
      (r, rw (acquire, e) run, counts, fresh)
]

-- `recycle` of a live pointer makes it free again.
pub recycle-IsPool :
    (block_size : ℕ) (p : ObjectPool) (live : List Pointer) (a : Pointer)
    → IsPool block_size p (a ∷ live)
    → IsPool block_size (recycle a p) live
unfolding recycle held
recycle-IsPool block_size p live a v b = omega (arith, v b)
