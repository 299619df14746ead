-- ===== src/Stop/Laws.antt =====
-- What `Group.Stop` leaves behind.
use jwtproxy.Common.{ℕ, ◌≡◌, refl, ap, inl, inr, Option-cases, some, List, [], ◌∷◌, length, arith}
use jwtproxy.Stop.{Group, StopperFunc, new_group, stop_all, stop}

module _ {S : Type 0} where
  -- Each stopper gave a channel.
  stop_all-length :
      (fs : List (StopperFunc S)) (s : S) (cs : List ℕ)
      → (stop_all fs s).0 ≡ some cs
      → length cs ≡ length fs
  unfolding stop_all
  stop_all-length [] s cs e = ground arith
  stop_all-length (f ∷ fs) s cs e = elim (Option-cases (f s).0) [
    | inl n ↦ cc (rw (n, stop_all) at e)
    | inr (c, g) ↦ elim (Option-cases (stop_all fs (f s).1).0) [
      | inl n ↦ cc (rw (g, n, stop_all) at e)
      | inr (ds, h) ↦ ground (arith, stop_all-length fs (f s).1 ds h)
    ]
  ]

  -- A `Stop` that does not panic got one channel from each stoppable and leaves the group empty: a
  -- second `Stop` stops nothing again, changes nothing, and has nothing to wait for.
  stop_twice :
      (cg : Group S) (s : S) (cs : List ℕ) (cg' : Group S) (s' : S)
      → stop cg s ≡ (some cs, cg', s')
      → (length cs ≡ length cg.stoppables) × (stop cg' s' ≡ (some [], cg', s'))
  unfolding stop stop_all
  stop_twice cg s cs cg' s' e = elim (Option-cases (stop_all cg.stoppables s).0) [
    | inl n ↦ cc (rw (n, stop) at e)
    | inr (ds, h) ↦
        let got : (some ds, record { stoppables = [] }, (stop_all cg.stoppables s).1)
            ≡ (some cs, cg', s') =
          rw (h, stop) at e in
        let empty : new_group ≡ cg' = ap (λ r. r.1) got in
        let same : ds ≡ cs = ground arith in
        (rw (← same) (stop_all-length cg.stoppables s ds h), rw (← empty) refl)
  ]
