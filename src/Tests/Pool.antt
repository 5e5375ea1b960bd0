-- ===== src/Tests/Pool.antt =====
-- The theorem on the pool, on one whose only block is in use.
use cpp_matching_engine.Prelude.{◌≡◌, [], ◌∷◌, some, arith}
use cpp_matching_engine.ObjectPool.{Pointer, ObjectPool, acquire}
use cpp_matching_engine.ObjectPool.Ownership.{IsPool, held, acquire-IsPool}

abbrev used_up : ObjectPool
used_up = record { blocks = 1; free_list = [] }

used_up-IsPool : IsPool 2 used_up ((0, 1) ∷ (0, 0) ∷ [])
unfolding held
used_up-IsPool a = ground arith

acquire-IsPool_example :
    (r : Pointer × ObjectPool) × (acquire 2 used_up ≡ some r)
    × IsPool 2 r.1 (r.0 ∷ (0, 1) ∷ (0, 0) ∷ [])
    × (held r.0 ((0, 1) ∷ (0, 0) ∷ []) ≡ 0)
acquire-IsPool_example =
    acquire-IsPool 2 used_up ((0, 1) ∷ (0, 0) ∷ []) (omega arith) used_up-IsPool
