-- ===== src/OrderBook/Removing.antt =====
-- A cancel on the map of one side: the level loses the order, or goes if it was the last.
use cpp_matching_engine.Prelude.{
  ℕ, ◌+◌, ◌≤◌, ◌<◌, ◌≡◌, refl, true, List, [], ◌∷◌, arith, if◌then◌else◌, All, All-impl, u32_mod,
  ◌==◌, nat_eq, Bool-cases, inl, inr, ◌≢◌, none, some, sym, subst, Option-cases,
}
use cpp_matching_engine.Double.{Double, IsOrdered}
use cpp_matching_engine.Types.{Side, Order, remaining}
use cpp_matching_engine.Levels.{before}
use cpp_matching_engine.OrderBook.{
  PriceLevel, LevelMap, OrderLocation, is_empty, remove_from, remove_order, cancel_in,
}
use cpp_matching_engine.OrderBook.Valid.{
  queue, remaining-lt, IsLevel, Follows, AreLevels, before_irrefl, Follows-queue,
}
use cpp_matching_engine.PriceTime.{
  Queue, location, count-eq-zero, count, locate, open_qty, withdraw, count-append, locate-eq-none,
  withdraw_absent, withdraw-append, locate-append,
}

pub is_empty-nil {ℓ} : {A : Type ℓ} (xs : List A) → is_empty xs ≡ true → xs ≡ []
is_empty-nil [] h = refl
is_empty-nil (x ∷ xs) h = cc

module _ {F : Type 0} where
  -- With at most one order of the id, removing the first is removing all.
  pub remove_from-withdraw :
      (id : ℕ) (os : List (Order F))
      → count id os ≡ 1
      → (q : ℕ) × (remove_from id os ≡ some (q, withdraw id os))
        × (open_qty os ≡ q + open_qty (withdraw id os))
        × (q < u32_mod)
  unfolding remove_from withdraw open_qty count
  remove_from-withdraw id [] h = absurd (omega arith)
  remove_from-withdraw id (o ∷ os) h = elim (Bool-cases (o.order_id == id)) [
    | inl e ↦ (
      remaining o,
      ground (arith, withdraw_absent id os),
      ground (arith, withdraw_absent id os),
      remaining-lt o,
    )
    | inr e ↦
        let (q, r, s, t) = remove_from-withdraw id os (ground arith) in
        (q, ground arith, ground arith, t)
  ]

  pub All-withdraw :
      (P : Order F → Type 0) (id : ℕ) (os : List (Order F)) → All P os → All P (withdraw id os)
  unfolding withdraw
  All-withdraw P id [] h = tt
  All-withdraw P id (o ∷ os) h = ground (arith, All-withdraw P id os h.1)

  pub remove_order-IsLevel :
      (side : Side) (key : F) (id : ℕ) (l : PriceLevel F)
      → IsLevel side key l
      → count id l.orders ≡ 1
      → IsLevel side key (remove_order l id).0
        × ((remove_order l id).0.orders ≡ withdraw id l.orders)
  unfolding remove_order
  remove_order-IsLevel side key id l v h =
      let (q, r, s, t) = remove_from-withdraw id l.orders h in
      rw (r, remove_order)
        (
          record {
            keyed = v.keyed;
            totalled = omega (arith, v.totalled);
            resting = All-withdraw _ id l.orders v.resting;
          },
          refl,
        )

  -- What holds of every order's location holds of what `locate` finds.
  pub All-locate :
      (P : OrderLocation F → Type 0) (id : ℕ) (q : Queue F) {loc : OrderLocation F}
      → All (λ o. P (location o)) q
      → locate id q ≡ some loc
      → P loc
  unfolding locate
  All-locate P id [] h e = cc
  All-locate P id (o ∷ q) h e = elim (Bool-cases (o.order_id == id)) [
    | inl hit ↦ subst P (ground arith) h.0
    | inr miss ↦ All-locate P id q h.1 (ground arith)
  ]

module _ {F : Type 0} ⦃d : Double F⦄ (ord : IsOrdered F) (side : Side) where
  pub cancel_in_past :
      (j p : F) (id : ℕ) (l : PriceLevel F) (m : LevelMap F)
      → before side j p ≡ true
      → cancel_in side p id ((j, l) ∷ m) ≡ (j, l) ∷ cancel_in side p id m
  unfolding cancel_in
  cancel_in_past j p id l m h = ground arith

  pub cancel_in_at :
      (j : F) (id : ℕ) (l : PriceLevel F) (m : LevelMap F)
      → cancel_in side j id ((j, l) ∷ m)
        ≡ (if is_empty (remove_order l id).0.orders then m else (j, (remove_order l id).0) ∷ m)
  unfolding cancel_in
  cancel_in_at j id l m = ground (arith, before_irrefl ord side j)

  -- The map of a side once an order of its queue is cancelled.
  pub record Cancelled (id : ℕ) (m m' : LevelMap F) : Type 0 where
    pub sound : AreLevels side m'
    pub withdrawn : queue m' ≡ withdraw id (queue m)
    pub follows : (k : F) → Follows side k m → Follows side k m'

  pub cancel_in_hit :
      (j : F) (id : ℕ) (l : PriceLevel F) (m : LevelMap F)
      → AreLevels side ((j, l) ∷ m)
      → count id l.orders ≡ 1
      → count id (queue m) ≡ 0
      → Cancelled id ((j, l) ∷ m) (cancel_in side j id ((j, l) ∷ m))
  unfolding queue
  cancel_in_hit j id l m v one none_left =
      let (level, left) = remove_order-IsLevel side j id l v.0 one in
      let gone = withdraw_absent id (queue m) none_left in
      elim (Bool-cases (is_empty (remove_order l id).0.orders)) [
        | inl e ↦
            rw (cancel_in_at j id l m, e)
              (record {
                sound = v.3;
                withdrawn =
                    rw (withdraw-append id l.orders (queue m), gone, sym left, is_empty-nil _ e);
                follows = λ k f. f.1;
              })
        | inr e ↦
            rw (cancel_in_at j id l m, e)
              (record {
                sound = (level, e, v.2, v.3);
                withdrawn = rw (withdraw-append id l.orders (queue m), gone, left);
                follows = λ k f. f;
              })
      ]

  pub cancel_in-Cancelled :
      (id : ℕ) (m : LevelMap F) {loc : OrderLocation F}
      → AreLevels side m
      → locate id (queue m) ≡ some loc
      → count id (queue m) ≤ 1
      → Cancelled id m (cancel_in side loc.price id m)
  unfolding queue locate
  cancel_in-Cancelled id [] v e h = cc
  cancel_in-Cancelled id ((j, l) ∷ m) {loc} v e h =
      let split = locate-append id l.orders (queue m) in
      let counts = count-append id l.orders (queue m) in
      elim (Option-cases (locate id l.orders)) [
        | inr (loc', here) ↦
            let at_key =
              All-locate (λ x. x.price ≡ j) id l.orders
                (All-impl l.orders (λ o r. r.at_price) v.0.resting) here in
            let found : locate id l.orders ≢ none = λ p. cc in
            let one : count id l.orders ≡ 1 =
              ground (arith, counts, h, found, locate-eq-none id l.orders) in
            let same : loc.price ≡ j = ground (arith, split, at_key) in
            rw same (cancel_in_hit j id l m v one (omega (arith, counts)))
        | inl elsewhere ↦
            let later : locate id (queue m) ≡ some loc = ground (arith, split) in
            let past =
              All-locate (λ x. before side j x.price ≡ true) id (queue m)
                (Follows-queue ord side j m v.3 v.2) later in
            let c = cancel_in-Cancelled id m v.3 later (omega (arith, counts)) in
            rw (cancel_in_past j loc.price id l m past) (record {
              sound = (v.0, v.1, c.follows j v.2, c.sound);
              withdrawn = rw (
                withdraw-append id l.orders (queue m),
                withdraw_absent id l.orders (count-eq-zero id l.orders elsewhere),
                c.withdrawn,
              );
              follows = λ k f. (f.0, c.follows k f.1);
            })
      ]
