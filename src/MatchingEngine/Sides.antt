-- ===== src/MatchingEngine/Sides.antt =====
-- The outer loop over a side of the book, and the fuel that is enough for it.
use cpp_matching_engine.Prelude.{
  ℕ, zero, suc, ◌<◌, ◌≤◌, ◌≡◌, inl, inr, Bool, false, [], ◌∷◌, arith, nat_eq, All, Bool-cases,
  List-cases, length, ap, ◌∙◌, sym, zero-cases,
}
use cpp_matching_engine.Double.{Double, IsOrdered}
use cpp_matching_engine.Types.{Side, remaining}
use cpp_matching_engine.OrderBook.{PriceLevel, LevelMap, levels}
use cpp_matching_engine.OrderBook.Valid.{AreLevels}
use cpp_matching_engine.MatchingEngine.{Match, drop_best, level_fuel}
use cpp_matching_engine.MatchingEngine.Sweep.{IsSized, sweep_done}
use cpp_matching_engine.MatchingEngine.Loops.{match_level-LevelRun}
use cpp_matching_engine.MatchingEngine.Rounds.{
  stay_SideDone, SideRun, match_side_empty, match_side_idle, match_side_halts, match_side_go,
  Dropped, drop-Dropped, swept_empty, swept_stop,
}

module _ {F : Type 0} ⦃d : Double F⦄ (ord : IsOrdered F) (now_ns : ℕ → ℕ) (side : Side)
    (stop : F → Bool) where
  abbrev Rounds : ℕ → ℕ → Type 0
  Rounds inner fuel =
      (s : Match F)
      → AreLevels side (levels side s.book)
      → IsSized s.order
      → All (λ e. length e.1.orders < inner) (levels side s.book)
      → length (levels side s.book) < fuel
      → SideRun ord now_ns side stop inner fuel s

  -- After a level the loop is done, or goes on with the levels behind it.
  after_drop :
      (inner fuel : ℕ) (s u : Match F) (m : LevelMap F)
      → length m < fuel
      → Dropped ord now_ns side stop m s u
      → All (λ e. length e.1.orders < inner) m
      → Rounds inner fuel
      → SideRun ord now_ns side stop inner fuel u
  after_drop inner zero s u m h dropped deep rounds = absurd (omega arith)
  after_drop inner (suc fuel) s u m h dropped deep rounds = elim dropped.shorter [
    | inl e ↦ (
      u,
      match_side_idle ord now_ns side stop inner fuel u e,
      stay_SideDone ord now_ns side stop u dropped.sound dropped.sized
          (sweep_done now_ns stop u.order _ u.engine e),
    )
    | inr e ↦ rounds u dropped.sound dropped.sized (rw e deep) (rw e h)
  ]

  round :
      (inner fuel : ℕ) (s : Match F) (k : F) (l : PriceLevel F) (m : LevelMap F)
      → levels side s.book ≡ (k, l) ∷ m
      → AreLevels side ((k, l) ∷ m)
      → IsSized s.order
      → All (λ e. length e.1.orders < inner) ((k, l) ∷ m)
      → length ((k, l) ∷ m) < suc fuel
      → 0 < remaining s.order
      → stop l.price ≡ false
      → Rounds inner fuel
      → SideRun ord now_ns side stop inner (suc fuel) s
  round inner fuel s k l m e v sized deep h more go rounds =
      let at_key : l.price ≡ k = v.0.keyed in
      let (t, run, done) = match_level-LevelRun ord now_ns side inner k l m s e v.0 sized deep.0 in
      let dropped =
        drop-Dropped ord now_ns side stop k l m s t e v (ap stop (sym at_key) ∙ go) done in
      let (w, runs, after) =
        after_drop inner fuel s (drop_best side t) m (omega arith) dropped deep.1 rounds in
      (
        w,
        match_side_go ord now_ns side stop inner fuel s k l m e go more (rw at_key run) ∙ runs,
        dropped.onward w after,
      )

  match_side-SideRun :
      (inner fuel : ℕ) (s : Match F)
      → AreLevels side (levels side s.book)
      → IsSized s.order
      → All (λ e. length e.1.orders < inner) (levels side s.book)
      → length (levels side s.book) < fuel
      → SideRun ord now_ns side stop inner fuel s
  match_side-SideRun inner zero s v sized deep h = absurd (omega arith)
  match_side-SideRun inner (suc fuel) s v sized deep h = elim (zero-cases (remaining s.order)) [
    | inl e ↦ (
      s,
      match_side_idle ord now_ns side stop inner fuel s e,
      stay_SideDone ord now_ns side stop s v sized (sweep_done now_ns stop s.order _ s.engine e),
    )
    | inr more ↦ elim (List-cases (levels side s.book)) [
      | inl e ↦ (
        s,
        match_side_empty ord now_ns side stop inner fuel s e,
        stay_SideDone ord now_ns side stop s v sized (swept_empty ord now_ns side stop s e),
      )
      | inr ((k, l), m, e) ↦ elim (Bool-cases (stop l.price)) [
        | inl at_stop ↦ (
          s,
          match_side_halts ord now_ns side stop inner fuel s k l m e at_stop,
          stay_SideDone ord now_ns side stop s v sized
              (swept_stop ord now_ns side stop s k l m e (rw e at v) at_stop),
        )
        | inr go ↦
            round inner fuel s k l m e (rw e at v) sized (rw e at deep) (rw e at h) more go
              (match_side-SideRun inner fuel)
      ]
    ]
  ]

module _ {F : Type 0} where
  level_fuel-levels : (m : LevelMap F) → length m < level_fuel m
  level_fuel-levels [] = omega arith
  level_fuel-levels ((_, l) ∷ m) = omega (arith, level_fuel-levels m)

  level_fuel-orders :
      (n : ℕ) (m : LevelMap F) → level_fuel m ≤ n → All (λ e. length e.1.orders < n) m
  level_fuel-orders n [] h = tt
  level_fuel-orders n ((_, l) ∷ m) h =
      (omega (arith, level_fuel-levels m), level_fuel-orders n m (omega arith))

-- With the fuel that level_fuel gives, the matching loops over a sound side end for an order that
-- is not overfilled, and then they have swept the queue of the side, kept it sound and left the
-- other side as it was.
pub match_side_ends :
    {F : Type 0} ⦃d : Double F⦄ (ord : IsOrdered F) (now_ns : ℕ → ℕ) (side : Side) (stop : F → Bool)
    (s : Match F)
    → AreLevels side (levels side s.book)
    → IsSized s.order
    → let fuel = level_fuel (levels side s.book) in SideRun ord now_ns side stop fuel fuel s
match_side_ends ord now_ns side stop s v sized =
    let m = levels side s.book in
    match_side-SideRun ord now_ns side stop (level_fuel m) (level_fuel m) s v sized
      (level_fuel-orders (level_fuel m) m (omega arith)) (level_fuel-levels m)
