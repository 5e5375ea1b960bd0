-- ===== src/TcpServer/Delivering.antt =====
-- What a connection does to the list of the orders in its queue.
use cpp_matching_engine.Prelude.{
  drop-drop, ℕ, zero, suc, ◌≡◌, refl, sym, ap, ◌∙◌, List, [], ◌∷◌, ◌++◌, Option, none, some, ltb,
  if◌then◌else◌, Bool-cases, inl, inr, length, drop, ◌+◌, append_assoc, append-nil, Option-cases,
}
use cpp_matching_engine.Types.{Order, c_string}
use cpp_matching_engine.TcpServer.{Moment, Turn, Request, parse_request, request_order}
use cpp_matching_engine.TcpServer.Pushing.{pushed, first_pops}

module _ {A : Type 0} where
  -- What is left of a list when some of its first items are gone.
  abbrev pub IsLeft : List A → List A → Type 0
  IsLeft zs xs = (k : ℕ) × (zs ≡ drop k xs)

  IsLeft-trans : (xs ys zs : List A) → IsLeft zs ys → IsLeft ys xs → IsLeft zs xs
  IsLeft-trans xs ys zs (k, e) (j, f) = (j + k, e ∙ ap (drop k) f ∙ drop-drop j k xs)

  drop-IsLeft : (n : ℕ) (xs ys : List A) → IsLeft (drop n xs ++ ys) (xs ++ ys)
  drop-IsLeft zero xs ys = (0, refl)
  drop-IsLeft (suc n) [] ys = (0, refl)
  drop-IsLeft (suc n) (x ∷ xs) ys = let (k, e) = drop-IsLeft n xs ys in (suc k, e)

  pushed-IsLeft :
      (capacity : ℕ) (item : A) (ts : List Moment) (xs ys : List A)
      → IsLeft (pushed capacity item ts xs ++ ys) (xs ++ item ∷ ys)
  pushed-IsLeft capacity item ts xs ys = elim (Bool-cases (ltb (length xs + 1) capacity)) [
    | inl e ↦ (0, rw e (append_assoc xs (item ∷ []) ys))
    | inr e ↦
        let (k, same) = drop-IsLeft (first_pops ts) xs (item ∷ ys) in
        (k, rw e (append_assoc (drop (first_pops ts) xs) (item ∷ []) ys ∙ same))
  ]

module _ {F : Type 0} (acquired : ℕ → Order F) where
  -- The order of a request, with the number behind `c`.
  abbrev pub numbered : ℕ → Request F → Order F
  numbered c r = request_order (acquired (c + 1)) (c + 1) r

  abbrev pub orders : ℕ → List (Request F) → List (Order F)
  orders c [] = []
  orders c (r ∷ rs) = numbered c r ∷ orders (c + 1) rs

module _ {F : Type 0} (read_double : List ℕ → Option F) (acquired : ℕ → Order F) where
  -- The requests that a connection reads, until the server stops or the client is gone.
  abbrev pub requests : List Turn → List (Request F)
  requests [] = []
  requests (t ∷ ts) =
      if t.running
      then elim t.received [
        | none ↦ []
        | some bytes ↦ elim (parse_request read_double (c_string (bytes ++ 0 ∷ []))) [
          | none ↦ requests ts
          | some r ↦ r ∷ requests ts
        ]
      ]
      else []

  -- The orders in a ring of the capacity after the turns: in each, the consumer pops some, and the
  -- order of the request, if there is one, goes behind the others.
  abbrev pub queue_after : ℕ → ℕ → List Turn → List (Order F) → List (Order F)
  queue_after capacity c [] xs = xs
  queue_after capacity c (t ∷ ts) xs =
      if t.running
      then elim t.received [
        | none ↦ xs
        | some bytes ↦ elim (parse_request read_double (c_string (bytes ++ 0 ∷ []))) [
          | none ↦ queue_after capacity c ts (drop t.pops xs)
          | some r ↦
              queue_after capacity (c + 1) ts
                (pushed capacity (numbered acquired c r) t.moments (drop t.pops xs))
        ]
      ]
      else xs

  -- No order is lost, doubled or overtaken: only the consumer takes, and from the front.
  pub queue_after-IsLeft :
      (capacity c : ℕ) (ts : List Turn) (xs : List (Order F))
      → IsLeft (queue_after capacity c ts xs) (xs ++ orders acquired c (requests ts))
  queue_after-IsLeft capacity c [] xs = (0, sym (append-nil xs))
  queue_after-IsLeft capacity c (t ∷ ts) xs = elim (Bool-cases t.running) [
    | inr e ↦ rw e (0, sym (append-nil xs))
    | inl e ↦ elim (Option-cases t.received) [
      | inl f ↦ rw (e, f) (0, sym (append-nil xs))
      | inr (bytes, f) ↦
          let ys = drop t.pops xs in
          elim (Option-cases (parse_request read_double (c_string (bytes ++ 0 ∷ [])))) [
            | inl none_read ↦
                let os = orders acquired c (requests ts) in
                rw (e, f, none_read)
                  (IsLeft-trans (xs ++ os) (ys ++ os) _ (queue_after-IsLeft capacity c ts ys)
                    (drop-IsLeft t.pops xs os))
            | inr (r, read) ↦
                let o = numbered acquired c r in
                let os = orders acquired (c + 1) (requests ts) in
                let zs = pushed capacity o t.moments ys in
                rw (e, f, read)
                  (IsLeft-trans (xs ++ o ∷ os) (ys ++ o ∷ os) _
                    (IsLeft-trans (ys ++ o ∷ os) (zs ++ os) _
                      (queue_after-IsLeft capacity (c + 1) ts zs)
                      (pushed-IsLeft capacity o t.moments ys os))
                    (drop-IsLeft t.pops xs (o ∷ os)))
          ]
    ]
  ]
