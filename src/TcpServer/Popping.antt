-- ===== src/TcpServer/Popping.antt =====
-- Pops of the consumer, on the list of the items.
use cpp_matching_engine.Prelude.{
  ℕ, zero, suc, ◌≡◌, refl, sym, ap, ◌∙◌, subst, List, [], ◌∷◌, Bool-cases, inl, inr, drop, ◌==◌,
  nat_eq,
}
use cpp_matching_engine.SpscQueue.{SpscQueue, pop}
use cpp_matching_engine.SpscQueue.Fifo.{IsQueue, pop-IsQueue}
use cpp_matching_engine.TcpServer.{pop_many}

module _ {T : Type 0} where
  pop-capacity : (item : T) (q : SpscQueue T) → (pop item q).0.capacity ≡ q.capacity
  unfolding pop
  pop-capacity item q = elim (Bool-cases (q.head == q.tail)) [
    | inl e ↦ rw e refl
    | inr e ↦ rw e refl
  ]

  pop-drops :
      (item : T) (q : SpscQueue T) (xs : List T) → IsQueue q xs → IsQueue (pop item q).0 (drop 1 xs)
  pop-drops item q xs v = elim (pop-IsQueue q xs item v) [
    | inl (e, ok, out, same) ↦
        let still : IsQueue (pop item q).0 xs = subst (λ r. IsQueue r xs) (sym same) v in
        subst (λ r. IsQueue (pop item q).0 r) (e ∙ ap (drop 1) (sym e)) still
    | inr (ys, e, ok, w) ↦ subst (λ r. IsQueue (pop item q).0 r) (ap (drop 1) (sym e)) w
  ]

  drop_one : (n : ℕ) (xs : List T) → drop n (drop 1 xs) ≡ drop (suc n) xs
  drop_one zero [] = refl
  drop_one (suc n) [] = refl
  drop_one n (x ∷ xs) = refl

  pub pop_many-drops :
      (item : T) (n : ℕ) (q : SpscQueue T) (xs : List T)
      → IsQueue q xs
      → IsQueue (pop_many item n q) (drop n xs) × ((pop_many item n q).capacity ≡ q.capacity)
  pop_many-drops item zero q xs v = (v, refl)
  pop_many-drops item (suc n) q xs v =
      let (w, same) = pop_many-drops item n (pop item q).0 (drop 1 xs) (pop-drops item q xs v) in
      (
        subst (λ r. IsQueue (pop_many item n (pop item q).0) r) (drop_one n xs) w,
        same ∙ pop-capacity item q,
      )
