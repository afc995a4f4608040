-- ===== src/Mcp356x/Bounds.antt =====
-- What mcp356x.c writes to the caller's buffer and to its own channel map.
use backplane_flight_compute.Base.{
  ℕ, zero, suc, ◌+◌, ◌*◌, ◌≤◌, ◌<◌, ◌≡◌, ◌≢◌, ◌⊎◌, refl, inl, inr, true, List, [], ◌∷◌, ◌++◌, some,
  ltb, ◌==◌, get_or, length, length-append, set, get_elem?, get_elem?-set, if◌then◌else◌,
  Option-cases, arith, Bool-cases,
}
use backplane_flight_compute.Zephyr.{Code, success, Outcome, go, stop, Machine, Spi, Outcome-cases}
use backplane_flight_compute.Mcp356x.Registers.{
  adcdata, mcp_read_reg_24, mcp_write_reg_8, Mcp356x, Mcp356xConfig, ChannelMapEntry,
}
use backplane_flight_compute.Mcp356x.Channels.{
  ChannelCfg, other_gain, other_reference, channel_setup, store_entry, mux_of, gain_bits_of,
  vref_sel_bits_of,
}
use backplane_flight_compute.Mcp356x.Reads.{
  select, no_entry, Sequence, has_channel, popcount, popcount_from, sample, read_from, read_channel,
}

-- The loop has ended with at most `most` samples, and with all of them if its code is 0.
abbrev pub Wrote : ℕ → Outcome (Code × List ℕ) → Type 0
Wrote most (go (ret, samples)) =
    (length samples ≤ most) × ((ret ≢ success) ⊎ (length samples ≡ most))
Wrote most (stop c) = ⊥

-- The ending of a loop, with its samples in a buffer that has room for them.
opened :
    (o : Outcome (Code × List ℕ)) (most size : ℕ)
    → Wrote most o
    → 4 * most ≤ size
    → (ret : Code) × (samples : List ℕ) × (o ≡ go (ret, samples))
      × (4 * length samples ≤ size)
      × ((ret ≢ success) ⊎ (length samples ≡ most))
opened (go (ret, samples)) most size w h = (ret, samples, refl, omega arith, w.1)
opened (stop c) most size w h = absurd w

module _ {W : Type 0} (bus : Spi W) (cfg : Mcp356xConfig) where
  select_goes :
      (entry : ChannelMapEntry) (m : Machine Mcp356x W) → (select bus cfg entry m).0 ≡ go tt
  unfolding select mcp_write_reg_8
  select_goes entry m = ground arith

  read_stop :
      (reg : ℕ) (m : Machine Mcp356x W) (c : Code)
      → (mcp_read_reg_24 bus cfg reg m).0 ≡ stop c
      → c ≢ success
  unfolding mcp_read_reg_24
  read_stop reg m c h = ground arith

  sample_stop :
      (i : ℕ) (m : Machine Mcp356x W) (c : Code) → (sample bus cfg i m).0 ≡ stop c → c ≢ success
  unfolding sample
  sample_stop i m c h =
      let entry = get_or m.dev.channel_map i no_entry in
      ground (arith, select_goes entry m, read_stop adcdata (select bus cfg entry m).1 c)

  read_from-Wrote :
      (n i channels : ℕ) (samples : List ℕ) (m : Machine Mcp356x W) (most : ℕ)
      → length samples + popcount_from n i channels ≡ most
      → Wrote most (read_from bus cfg n i channels samples m).0
  unfolding read_from popcount_from
  read_from-Wrote zero i channels samples m most h = (omega arith, inr (omega arith))
  read_from-Wrote (suc n) i channels samples m most h =
      elim (Bool-cases (has_channel channels i == 0)) [
        | inl e ↦
            let none_here : has_channel channels i ≡ 0 = ground arith in
            rw e (read_from-Wrote n (suc i) channels samples m most (omega arith))
        | inr e ↦ elim (Outcome-cases (sample bus cfg i m).0) [
          | inl (c, o) ↦ rw (e, o) (omega arith, inl (sample_stop i m c o))
          | inr (x, o) ↦
              let one_here : has_channel channels i ≡ 1 = ground arith in
              rw (e, o)
                (read_from-Wrote n (suc i) channels (samples ++ (x ∷ [])) (sample bus cfg i m).1
                  most (omega (arith, length-append samples (x ∷ []))))
        ]
      ]

  low_channels : (channels : ℕ) → popcount_from 8 0 channels ≤ popcount channels
  unfolding popcount_from
  low_channels channels = omega arith

  -- A read never writes past the caller's buffer of `buffer_size` bytes, four bytes a sample, on any
  -- path. If it returns 0 it has written a sample for each of the requested channels 0 to 7.
  pub read_channel_fits :
      (s : Sequence) (m : Machine Mcp356x W)
      → (ret : Code) × (samples : List ℕ) × ((read_channel bus cfg s m).0 ≡ go (ret, samples))
        × (4 * length samples ≤ s.buffer_size)
        × ((ret ≢ success) ⊎ (length samples ≡ popcount_from 8 0 s.channels))
  unfolding read_channel
  read_channel_fits s m = elim (Bool-cases s.has_options) [
    | inl e ↦ rw e (_, _, refl, omega arith, inl (λ h. cc))
    | inr e ↦ elim (Bool-cases (ltb s.buffer_size (4 * popcount s.channels))) [
      | inl small ↦ rw (e, small) (_, _, refl, omega arith, inl (λ h. cc))
      | inr fits ↦
          rw (e, fits)
            (opened (read_from bus cfg 8 0 s.channels [] m).0 (popcount_from 8 0 s.channels)
              s.buffer_size
              (read_from-Wrote 8 0 s.channels [] m (popcount_from 8 0 s.channels) (omega arith))
              (ground (arith, low_channels s.channels)))
    ]
  ]

-- On a bus that is ready, and with a map of 8 entries: a channel below 8 with a gain and a reference that
-- the device has goes into its own entry of the map, with its two inputs, and the other entries stay.
pub channel_setup_lem :
    (d : Mcp356x) (c : ChannelCfg) (j : ℕ)
    → length d.channel_map ≡ 8
    → c.channel_id < 8
    → c.gain ≢ other_gain
    → c.reference ≢ other_reference
    → (d' : Mcp356x) × (entry : ChannelMapEntry) × (channel_setup true d c ≡ some (success, d'))
      × (entry.mux_reg ≡ mux_of c)
      × (get_elem? d'.channel_map j
          ≡ (if j == c.channel_id then some entry else get_elem? d.channel_map j))
unfolding channel_setup store_entry
channel_setup_lem d c j h k g r = elim (Option-cases (gain_bits_of c.gain)) [
  | inl e ↦ absurd (ground arith)
  | inr (gain, e) ↦ elim (Option-cases (vref_sel_bits_of c.reference)) [
    | inl e' ↦ absurd (ground arith)
    | inr (vref, e') ↦
        let entry : ChannelMapEntry = record {
          mux_reg = mux_of c;
          differential = c.is_differential;
          gain_bits = gain;
          reference_bits = vref;
        } in
        (
          record d { channel_map = set d.channel_map c.channel_id entry },
          entry,
          ground arith,
          refl,
          get_elem?-set d.channel_map c.channel_id j entry (omega arith),
        )
  ]
]
