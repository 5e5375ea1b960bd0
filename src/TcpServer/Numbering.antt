-- ===== src/TcpServer/Numbering.antt =====
-- The numbers of a client's orders, and their ACKs.
use cpp_matching_engine.Prelude.{
  ℕ, zero, suc, ◌≡◌, refl, sym, ap, ◌∙◌, List, [], ◌∷◌, ◌++◌, ◌+◌, arith, append_assoc, append-nil,
}
use cpp_matching_engine.Types.{Order}
use cpp_matching_engine.SpscQueue.{SpscQueue}
use cpp_matching_engine.TcpServer.{Client}

-- The `n` numbers behind `c`.
abbrev pub numbers : ℕ → ℕ → List ℕ
numbers c zero = []
numbers c (suc n) = (c + 1) ∷ numbers (c + 1) n

numbers-append : (c n m : ℕ) → numbers c n ++ numbers (c + n) m ≡ numbers c (n + m)
numbers-append c zero m =
    let start : c + 0 ≡ c = omega arith in
    let count : m ≡ 0 + m = omega arith in ap (λ k. numbers k m) start ∙ ap (numbers c) count
numbers-append c (suc n) m =
    let start : c + suc n ≡ (c + 1) + n = omega arith in
    let count : suc (n + m) ≡ suc n + m = omega arith in
    ap (λ k. (c + 1) ∷ (numbers (c + 1) n ++ numbers k m)) start
    ∙ ap (λ r. (c + 1) ∷ r) (numbers-append (c + 1) n m)
    ∙ ap (numbers c) count

module _ {F : Type 0} where
  -- From one state of a client to another, `n` orders are numbered and acknowledged.
  pub record Numbers (c : Client F) (n : ℕ) (b : Client F) : Type 0 where
    pub counted : b.order_id_counter ≡ c.order_id_counter + n
    pub acknowledged : b.sent ≡ c.sent ++ numbers c.order_id_counter n
    pub wide : b.queue.capacity ≡ c.queue.capacity

  pub nothing-Numbers : (c : Client F) → Numbers c 0 c
  nothing-Numbers c = record {
    counted = omega arith;
    acknowledged = sym (append-nil c.sent);
    wide = refl;
  }

  pub Numbers-trans :
      (a b c : Client F) (n m : ℕ) → Numbers a n b → Numbers b m c → Numbers a (n + m) c
  Numbers-trans a b c n m h k = record {
    counted = omega (arith, h.counted, k.counted);
    acknowledged =
        k.acknowledged
        ∙ ap (λ r. r ++ numbers b.order_id_counter m) h.acknowledged
        ∙ append_assoc a.sent (numbers a.order_id_counter n) (numbers b.order_id_counter m)
        ∙ ap (λ i. a.sent ++ (numbers a.order_id_counter n ++ numbers i m)) h.counted
        ∙ ap (λ r. a.sent ++ r) (numbers-append a.order_id_counter n m);
    wide = k.wide ∙ h.wide;
  }

  -- The consumer's pops number nothing.
  pub Numbers-popped :
      (c b : Client F) (q : SpscQueue (Order F)) (n : ℕ)
      → q.capacity ≡ c.queue.capacity
      → Numbers (record c { queue = q }) n b
      → Numbers c n b
  Numbers-popped c b q n size h = record {
    counted = h.counted;
    acknowledged = h.acknowledged;
    wide = h.wide ∙ size;
  }
