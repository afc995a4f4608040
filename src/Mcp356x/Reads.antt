-- ===== src/Mcp356x/Reads.antt =====
-- mcp356x_read_channel. The sample buffer is the list of the samples written to it, in order.
use backplane_flight_compute.Base.{
  ℕ, zero, suc, ◌+◌, ◌*◌, ◌/◌, ◌%◌, ◌^◌, Bool, false, List, [], ◌∷◌, ◌++◌, if◌then◌else◌, ltb, ◌==◌,
  get_or, bit_or, bit_and,
}
use backplane_flight_compute.Zephyr.{
  Code, success, error, eperm, Driver, ◌>>=◌, ◌>>◌, pure, Machine, Spi, wait, attempt, go, stop,
  device, set_device,
}
use backplane_flight_compute.Mcp356x.Registers.{
  Mcp356x, Mcp356xConfig, ChannelMapEntry, adcdata, config0, config2, mux, sign_extend_24_32,
  mcp_read_reg_24, mcp_write_reg_8,
}

-- `struct adc_sequence`: is `options` set, the bits of the channels, and the buffer's size in bytes.
pub record Sequence : Type 0 where
  pub has_options : Bool
  pub channels : ℕ
  pub buffer_size : ℕ

abbrev pub no_entry : ChannelMapEntry
no_entry = record { mux_reg = 0; differential = false; gain_bits = 0; reference_bits = 0 }

-- `(channels >> i) & 1`
abbrev pub has_channel : ℕ → ℕ → ℕ
has_channel channels i = channels / 2 ^ i % 2

-- The set bits among the `n` bits from bit `i` on; `__builtin_popcount` is that of 32 bits from 0.
unfoldable pub popcount_from : ℕ → ℕ → ℕ → ℕ
popcount_from zero i channels = 0
popcount_from (suc n) i channels = has_channel channels i + popcount_from n (suc i) channels

abbrev pub popcount : ℕ → ℕ
popcount channels = popcount_from 32 0 channels

-- `(data->config0 & 0b01111111) | (1 << 7)` and `(data->config2 & 0b11000111) | (cfg.gain_bits << 3)`
abbrev pub config0_byte : Mcp356x → ℕ
config0_byte d = bit_or (bit_and d.config0_reg 0b01111111) (2 ^ 7) % 256

abbrev pub config2_byte : Mcp356x → ChannelMapEntry → ℕ
config2_byte d entry = bit_or (bit_and d.config2_reg 0b11000111) (entry.gain_bits * 8) % 256

module _ {W : Type 0} (bus : Spi W) (cfg : Mcp356xConfig) where
  -- A register is written, and its copy kept. The code of the write is not looked at.
  write_config0 : ℕ → Driver (Machine Mcp356x W) (Unit {0})
  write_config0 byte = do
    _ ← mcp_write_reg_8 bus cfg config0 byte
    d ← device
    set_device (record d { config0_reg = byte })

  write_config2 : ℕ → Driver (Machine Mcp356x W) (Unit {0})
  write_config2 byte = do
    _ ← mcp_write_reg_8 bus cfg config2 byte
    d ← device
    set_device (record d { config2_reg = byte })

  write_mux : ℕ → Driver (Machine Mcp356x W) (Unit {0})
  write_mux byte = do
    _ ← mcp_write_reg_8 bus cfg mux byte
    d ← device
    set_device (record d { mux_reg = byte })
    wait (bus.sleep_us 1)

  -- The registers of a channel, each written only if it is to change.
  unfoldable pub select : ChannelMapEntry → Driver (Machine Mcp356x W) (Unit {0})
  unfolding write_config0 write_config2 write_mux
  select entry = do
    d ← device
    (if config0_byte d == d.config0_reg then pure tt else write_config0 (config0_byte d))
    d ← device
    (if config2_byte d entry == d.config2_reg
        then pure tt
        else write_config2 (config2_byte d entry))
    d ← device
    (if entry.mux_reg == d.mux_reg then pure tt else write_mux entry.mux_reg)

  -- One channel: select it, read, and give its sample.
  unfoldable pub sample : ℕ → Driver (Machine Mcp356x W) ℕ
  sample i = do
    d ← device
    select (get_or d.channel_map i no_entry)
    val ← mcp_read_reg_24 bus cfg adcdata
    pure (sign_extend_24_32 val)

  -- The loop with `n` channels left from `i` on and the samples so far, to its code and its samples.
  -- A failed read ends it, with the samples before it in the buffer.
  unfoldable pub read_from : ℕ → ℕ → ℕ → List ℕ → Driver (Machine Mcp356x W) (Code × List ℕ)
  read_from zero i channels samples = pure (success, samples)
  read_from (suc n) i channels samples =
      let skip = read_from n (suc i) channels samples in
      let rest = λ (x : ℕ). read_from n (suc i) channels (samples ++ (x ∷ [])) in
      if has_channel channels i == 0
      then skip
      else (attempt (sample i) >>= λ out. elim out [
        | stop res ↦ pure (res, samples)
        | go x ↦ rest x
      ])

  unfoldable pub read_channel : Sequence → Driver (Machine Mcp356x W) (Code × List ℕ)
  read_channel s =
      if s.has_options
      then pure (error eperm, [])
      else if ltb s.buffer_size (4 * popcount s.channels)
      then pure (error eperm, [])
      else read_from 8 0 s.channels []
