-- ===== src/OpenRocket/Search.antt =====
-- What or_find_bounding_packets finds.
use backplane_flight_compute.Base.{
  ℕ, zero, suc, ◌+◌, ◌-◌, ◌≤◌, ◌<◌, ◌^◌, ◌≡◌, ◌⊎◌, refl, true, false, some, inl, inr, arith,
  Bool-cases, leb, ◌%◌,
}
use backplane_flight_compute.OpenRocket.Sim.{
  Scalar, Sim, Bounds, time_at, size, find_from, or_find_bounding_packets,
}

-- `<` of the scalar is asymmetric; that of C is, on every value.
abbrev pub IsAsymmetric : {R : Type 0} → Scalar R → Type 0
IsAsymmetric {R} num = (a b : R) → num.lt a b ≡ true → num.lt b a ≡ false

module _ {R : Type 0} (num : Scalar R) (asym : IsAsymmetric num) (s : Sim R) where
  -- Past the last packet, or between two packets next to each other.
  pub record IsAround (or_time : R) (b : Bounds R) : Type 0 where
    pub next : b.upper_idx ≡ suc b.lower_idx
    pub inside : b.upper_idx < size num s
    pub above : num.lt or_time (time_at num s b.lower_idx) ≡ false
    pub below : num.lt (time_at num s b.upper_idx) or_time ≡ false
    pub share :
        b.mix
        ≡ num.div
            (num.sub or_time (time_at num s b.lower_idx))
            (num.sub (time_at num s b.upper_idx) (time_at num s b.lower_idx))

  abbrev pub IsPast : R → Bounds R → Type 0
  IsPast or_time b =
      (b.lower_idx ≡ size num s)
      × (b.upper_idx ≡ size num s)
      × (num.lt (time_at num s (size num s - 1)) or_time ≡ true)

  find_from_lem :
      (fuel : ℕ) (or_time : R) (i : ℕ)
      → 2 ≤ size num s
      → size num s < 2 ^ 32
      → suc i < size num s
      → size num s ≤ i + fuel
      → num.lt or_time (time_at num s i) ≡ false
      → (b : Bounds R) × (find_from num s fuel or_time i ≡ some b)
        × (IsPast or_time b ⊎ IsAround or_time b)
  unfolding find_from
  find_from_lem zero or_time i two fits h f a = absurd (omega arith)
  find_from_lem (suc fuel) or_time i two fits h f a =
      elim (Bool-cases (num.lt (time_at num s (suc i)) or_time)) [
        | inr e ↦
            rw e (
              _,
              refl,
              inr (record { next = refl; inside = h; above = a; below = e; share = refl }),
            )
        | inl e ↦ elim (Bool-cases (leb ((size num s + 2 ^ 32 - 2) % 2 ^ 32) i)) [
          | inl last ↦
              let end : size num s - 1 ≡ suc i = ground arith in
              rw (e, last) (_, refl, inl (refl, refl, rw end e))
          | inr more ↦
              rw (e, more)
                (find_from_lem fuel or_time (suc i) two fits (ground arith) (omega arith)
                  (asym _ _ e))
        ]
      ]

  -- With an asymmetric `<`, at least two packets and fewer than 2 ^ 32, a search from the first packet
  -- ends within a round for each packet. Before the first packet's time both indices are 0; past the
  -- last one's both are the number of packets; otherwise they are neighbours inside the data, the time
  -- lies between theirs, and `mix` is its share of the way from the lower to the upper one.
  pub or_find_bounding_packets_lem :
      (or_time : R)
      → 2 ≤ size num s
      → size num s < 2 ^ 32
      → (b : Bounds R) × (or_find_bounding_packets num s 0 or_time ≡ some b)
        × (((num.lt or_time (time_at num s 0) ≡ true) × (b.lower_idx ≡ 0) × (b.upper_idx ≡ 0))
            ⊎ (IsPast or_time b ⊎ IsAround or_time b))
  unfolding or_find_bounding_packets
  or_find_bounding_packets_lem or_time two fits =
      elim (Bool-cases (num.lt or_time (time_at num s 0))) [
        | inl e ↦ rw e (_, refl, inl (refl, refl, refl))
        | inr e ↦
            let (b, found, where_it_is) =
              find_from_lem (size num s) or_time 0 two fits (omega arith) (omega arith) e in
            rw e (b, found, inr where_it_is)
      ]
