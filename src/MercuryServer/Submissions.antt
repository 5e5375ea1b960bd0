-- ===== src/MercuryServer/Submissions.antt =====
-- A run of submissions with ids of their own.
use cpp_matching_engine.Prelude.{
  ℕ, ◌≡◌, ◌≢◌, refl, ◌∙◌, List, [], ◌∷◌, some, none, true, All, nat_eq, list_eq,
}
use cpp_matching_engine.Prelude.Map
use cpp_matching_engine.Double.{Double, IsOrdered}
use cpp_matching_engine.Types.{Order}
use cpp_matching_engine.Exchange.{Exchange, has_symbol}
use cpp_matching_engine.Exchange.Routing.{IsRouted}
use cpp_matching_engine.Exchange.Submitting.{submit_order-Keeps}
use cpp_matching_engine.MatchingEngine.Sweep.{IsSized}
use cpp_matching_engine.MercuryServer.{submit_all}

module _ {F : Type 0} where
  -- The index does not know the id.
  abbrev pub IsUnknown : Exchange F → ℕ → Type 0
  IsUnknown x id = Map.find id x.global_order_index ≡ none

  -- Orders that can be submitted one after the other: none is overfilled, and their ids are new and
  -- all different.
  abbrev pub AreFresh : Exchange F → List (Order F) → Type 0
  AreFresh x [] = Unit
  AreFresh x (o ∷ os) =
      IsSized o × IsUnknown x o.order_id × All (λ p. o.order_id ≢ p.order_id) os × AreFresh x os

  -- From one exchange to another the symbols stay listed, and ids that differ from those of the
  -- orders are known as before.
  pub record Grows (x : Exchange F) (os : List (Order F)) (y : Exchange F) : Type 0 where
    pub others :
        (k : ℕ)
        → All (λ o. o.order_id ≢ k) os
        → Map.find k y.global_order_index ≡ Map.find k x.global_order_index
    pub listed : (s : List ℕ) → has_symbol s x ≡ true → has_symbol s y ≡ true

  AreFresh-other :
      (x y : Exchange F) (id : ℕ) (os : List (Order F))
      → ((k : ℕ) → id ≢ k → Map.find k y.global_order_index ≡ Map.find k x.global_order_index)
      → All (λ p. id ≢ p.order_id) os
      → AreFresh x os
      → AreFresh y os
  AreFresh-other x y id [] same h k = tt
  AreFresh-other x y id (o ∷ os) same (h, hs) (sized, unknown, apart, k) =
      (sized, same o.order_id h ∙ unknown, apart, AreFresh-other x y id os same hs k)

module _ {F : Type 0} ⦃d : Double F⦄ (ord : IsOrdered F) (now_ns : ℕ → ℕ) where
  pub submit_all-Grows :
      (os : List (Order F)) (x : Exchange F)
      → IsRouted x
      → AreFresh x os
      → (y : Exchange F) × (submit_all now_ns os x ≡ some y) × IsRouted y × Grows x os y
  unfolding submit_all
  submit_all-Grows [] x v h = (x, refl, v, record { others = λ k apart. refl; listed = λ s l. l })
  submit_all-Grows (o ∷ os) x v (sized, unknown, apart, h) =
      let (r, run, w, (same, symbols)) = submit_order-Keeps ord now_ns o x v sized unknown in
      let (y, rest, u, grows) =
        submit_all-Grows os r.0 w (AreFresh-other x r.0 o.order_id os same apart h) in
      (
        y,
        rw run rest,
        u,
        record {
          others = λ k (other, others). grows.others k others ∙ same k other;
          listed = λ s l. grows.listed s (symbols s l);
        },
      )
