-- ===== src/Mcp356x/Overruns.antt =====
-- Which set-ups of channels write past the map of the channels.
use backplane_flight_compute.Base.{
  ℕ, ◌≡◌, ◌≢◌, ◌⊎◌, refl, Bool, true, false, Option, none, some, List, [], ◌∷◌, length, ltb,
  length-set, inl, inr, Bool-cases, Option-cases, arith, set, ◌∙◌,
}
use backplane_flight_compute.Zephyr.{Code, success, error, enodev, enotsup}
use backplane_flight_compute.Mcp356x.Registers.{Mcp356x, ChannelMapEntry}
use backplane_flight_compute.Mcp356x.Channels.{
  ChannelCfg, Gain, other_gain, Reference, other_reference, gain_bits_of, vref_sel_bits_of,
  store_entry, channel_setup,
}

-- A set-up on a bus that is ready or not
abbrev pub Setup : Type 0
Setup = Bool × ChannelCfg

abbrev pub after_setup : Option (Code × Mcp356x) → (Mcp356x → Option Mcp356x) → Option Mcp356x
after_setup none rest = none
after_setup (some (code, d)) rest = rest d

-- The driver after set-ups, whatever they return; `none` once one has written past the map
unfoldable pub setups : List Setup → Mcp356x → Option Mcp356x
setups [] d = some d
setups ((ready, c) ∷ cs) d = after_setup (channel_setup ready d c) (setups cs)

-- On a ready bus, the channel 8, with a gain and a reference that the device has
abbrev pub IsPastMap : Setup → Type 0
IsPastMap (ready, c) =
    (ready ≡ true) × (c.channel_id ≡ 8) × (c.gain ≢ other_gain) × (c.reference ≢ other_reference)

abbrev pub SomePastMap : List Setup → Type 0
SomePastMap [] = ⊥
SomePastMap (s ∷ rest) = IsPastMap s ⊎ SomePastMap rest

-- What a set-up comes to: it writes past the map, or keeps its length.
abbrev Outcome : Setup → Option (Code × Mcp356x) → Type 0
Outcome s r =
    ((r ≡ none) × IsPastMap s)
    ⊎ ((code : Code) × (d' : Mcp356x) × (r ≡ some (code, d'))
        × (length d'.channel_map ≡ 8)
        × ¬ IsPastMap s)

known_gain : (g : Gain) (bits : ℕ) → gain_bits_of g ≡ some bits → g ≢ other_gain
known_gain g bits e = λ h. ground (arith, e, h)

known_reference : (r : Reference) (bits : ℕ) → vref_sel_bits_of r ≡ some bits → r ≢ other_reference
known_reference r bits e = λ h. ground (arith, e, h)

other_gain_lem : (g : Gain) → gain_bits_of g ≡ none → g ≡ other_gain
other_gain_lem g e = ground (arith, e)

other_reference_lem : (r : Reference) → vref_sel_bits_of r ≡ none → r ≡ other_reference
other_reference_lem r e = ground (arith, e)

stored :
    (d : Mcp356x) (c : ChannelCfg) (entry : ChannelMapEntry)
    → length d.channel_map ≡ 8
    → ltb 8 c.channel_id ≡ false
    → c.gain ≢ other_gain
    → c.reference ≢ other_reference
    → Outcome (true, c) (store_entry d c.channel_id entry)
unfolding store_entry
stored d c entry h low g r = elim (Bool-cases (ltb c.channel_id (length d.channel_map))) [
  | inl inside ↦ rw inside (
      inr (
        success,
        record d { channel_map = set d.channel_map c.channel_id entry },
        refl,
        length-set d.channel_map c.channel_id entry ∙ h,
        λ v. ground (arith, v.1, inside, h),
      ))
  | inr outside ↦ rw outside (inl (refl, (refl, ground (arith, outside, h, low), g, r)))
]

setup_lem :
    (ready : Bool) (d : Mcp356x) (c : ChannelCfg)
    → length d.channel_map ≡ 8
    → Outcome (ready, c) (channel_setup ready d c)
unfolding channel_setup
setup_lem false d c h = inr (error enodev, d, refl, h, λ v. ground (arith, v.0))
setup_lem true d c h = elim (Bool-cases (ltb 8 c.channel_id)) [
  | inl high ↦ rw high (inr (error enodev, d, refl, h, λ v. ground (arith, v.1, high)))
  | inr low ↦ elim (Option-cases (gain_bits_of c.gain)) [
    | inl e ↦ rw (low, e) (inr (error enotsup, d, refl, h, λ v. v.2 (other_gain_lem c.gain e)))
    | inr (gain, e) ↦ elim (Option-cases (vref_sel_bits_of c.reference)) [
      | inl e' ↦
          rw (low, e, e')
            (inr (error enotsup, d, refl, h, λ v. v.3 (other_reference_lem c.reference e')))
      | inr (vref, e') ↦
          rw (low, e, e')
            (stored d c _ h low (known_gain c.gain gain e) (known_reference c.reference vref e'))
    ]
  ]
]

-- In any sequence of set-ups, from a driver with a map of 8 entries: some set-up writes past the map, and one
-- of them is of the channel 8, on a bus that is ready, with a gain and a reference that the device has; or
-- none is such a one, and the set-ups all stay inside the map.
pub setups_lem :
    (cs : List Setup) (d : Mcp356x)
    → length d.channel_map ≡ 8
    → ((setups cs d ≡ none) × SomePastMap cs)
      ⊎ ((d' : Mcp356x) × (setups cs d ≡ some d') × (length d'.channel_map ≡ 8) × ¬ SomePastMap cs)
unfolding setups
setups_lem [] d h = inr (d, refl, h, λ v. v)
setups_lem ((ready, c) ∷ cs) d h = elim (setup_lem ready d c h) [
  | inl (e, past) ↦ inl (rw e refl, inl past)
  | inr (code, d', e, h', fine) ↦ elim (setups_lem cs d' h') [
    | inl (e', past) ↦ inl (rw (e, e') refl, inr past)
    | inr (d'', e', h'', others) ↦
        inr (d'', rw (e, e') refl, h'', λ v. elim v [ inl w ↦ fine w | inr w ↦ others w ])
  ]
]
