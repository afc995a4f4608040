-- ===== src/Mcp356x/Tests.antt =====
-- The ADC driver on a bus that answers every transfer with one conversion.
use backplane_flight_compute.Base.{
  ℕ, ◌*◌, ◌≡◌, ◌≢◌, ◌⊎◌, ◌≤◌, refl, false, true, none, some, List, [], ◌∷◌, length, replicate,
  get_elem?, arith,
}
use backplane_flight_compute.Zephyr.{Code, success, go, Spi}
use backplane_flight_compute.Mcp356x.Registers.{Mcp356x, Mcp356xConfig, ChannelMapEntry}
use backplane_flight_compute.Mcp356x.Channels.{
  ChannelCfg, gain_8, other_gain, ref_external0, other_reference, channel_setup,
}
use backplane_flight_compute.Mcp356x.Reads.{Sequence, no_entry, popcount_from, read_channel}
use backplane_flight_compute.Mcp356x.Overruns.{Setup, setups, SomePastMap, setups_lem}
use backplane_flight_compute.Mcp356x.Bounds.{read_channel_fits, channel_setup_lem}

abbrev bus : Spi ℕ
bus = record {
  write = λ bytes w. (success, w);
  transceive = λ bytes n w. (success, 0x13 ∷ 0xFF ∷ 0xFE ∷ 0x0C ∷ 0x00 ∷ [], w);
  sleep_us = λ us w. w;
  is_ready = true;
}

abbrev cfg : Mcp356xConfig
cfg = record { device_addr = 1; osr = 3; prescale = 0; clock = 2 }

abbrev started : Mcp356x
started = record {
  channel_map = replicate 8 no_entry;
  enabled_channels_bitmap = 0;
  config0_reg = 0xE3;
  config1_reg = 0x0C;
  config2_reg = 0x83;
  config3_reg = 0xC0;
  mux_reg = 0x01;
}

-- Channels 0, 2 and 5, in a buffer of three samples.
abbrev sequence : Sequence
sequence = record { has_options = false; channels = 0b100101; buffer_size = 12 }

abbrev channel_of : ℕ → ChannelCfg
channel_of i = record {
  channel_id = i;
  input_positive = 4;
  input_negative = 5;
  is_differential = true;
  gain = gain_8;
  reference = ref_external0;
}

gain_8_is_known : gain_8 ≢ other_gain
gain_8_is_known h = cc

ref_external0_is_known : ref_external0 ≢ other_reference
ref_external0_is_known h = cc

read_channel_fits_example :
    (ret : Code) × (samples : List ℕ) × ((read_channel bus cfg sequence
        (record { dev = started; world = 0 })).0
      ≡ go (ret, samples))
    × (4 * length samples ≤ 12)
    × ((ret ≢ success) ⊎ (length samples ≡ popcount_from 8 0 0b100101))
read_channel_fits_example = read_channel_fits bus cfg sequence (record { dev = started; world = 0 })

channel_setup_lem_example :
    (d' : Mcp356x) × (entry : ChannelMapEntry) × (channel_setup true started (channel_of 3)
      ≡ some (success, d'))
    × (entry.mux_reg ≡ 0x45)
    × (get_elem? d'.channel_map 3 ≡ some entry)
channel_setup_lem_example =
    channel_setup_lem started (channel_of 3) 3 refl (omega arith) gain_8_is_known
      ref_external0_is_known

abbrev two_setups : List Setup
two_setups = (true, channel_of 3) ∷ (true, channel_of 8) ∷ []

setups_lem_example :
    ((setups two_setups started ≡ none) × SomePastMap two_setups)
    ⊎ ((d' : Mcp356x) × (setups two_setups started ≡ some d')
        × (length d'.channel_map ≡ 8)
        × ¬ SomePastMap two_setups)
setups_lem_example = setups_lem two_setups started refl
