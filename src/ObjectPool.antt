-- ===== src/ObjectPool.antt =====
-- utils/object_pool.h. A pointer is the number of its block and its index there; the vector of free
-- pointers is kept from its back to its front. The spin lock makes each operation one step.
pub mod Ownership
use cpp_matching_engine.Prelude.{ℕ, zero, suc, ◌+◌, List, [], ◌∷◌, Option, none, some}

abbrev pub Pointer : Type 0
Pointer = ℕ × ℕ

pub record ObjectPool : Type 0 where
  pub blocks : ℕ
  pub free_list : List Pointer

-- The loop of `allocate_block` that frees the cells 0 to n - 1 of a block.
unfoldable pub push_cells : ℕ → ℕ → List Pointer → List Pointer
push_cells block zero xs = xs
push_cells block (suc i) xs = (block, i) ∷ push_cells block i xs

unfoldable pub allocate_block : ℕ → ObjectPool → ObjectPool
allocate_block block_size p = record {
  blocks = p.blocks + 1;
  free_list = push_cells p.blocks block_size p.free_list;
}

unfoldable pub new_pool : ℕ → ObjectPool
new_pool block_size = allocate_block block_size (record { blocks = 0; free_list = [] })

-- `back()` and `pop_back()`. `none`: the vector is empty, which is undefined.
unfoldable pub take_back : ObjectPool → Option (Pointer × ObjectPool)
take_back p = elim p.free_list [ [] ↦ none | a ∷ rest ↦ some (a, record p { free_list = rest }) ]

unfoldable pub acquire : ℕ → ObjectPool → Option (Pointer × ObjectPool)
acquire block_size p = elim p.free_list [
  | [] ↦ take_back (allocate_block block_size p)
  | _ ∷ _ ↦ take_back p
]

unfoldable pub recycle : Pointer → ObjectPool → ObjectPool
recycle a p = record p { free_list = a ∷ p.free_list }
