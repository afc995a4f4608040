-- ===== src/Mcp356x/Channels.antt =====
-- mcp356x_channel_setup. `none` is a write past the end of `channel_map`.
use backplane_flight_compute.Base.{
  ℕ, ◌*◌, ◌%◌, Bool, not, Option, none, some, if◌then◌else◌, ltb, set, length, bit_or,
}
use backplane_flight_compute.Zephyr.{Code, success, error, enodev, enotsup}
use backplane_flight_compute.Mcp356x.Registers.{Mcp356x, ChannelMapEntry}

-- `enum adc_gain` and `enum adc_reference`, as far as the driver tells their members apart
pub data Gain : Type 0 where
  gain_1_3 gain_1 gain_2 gain_4 gain_8 gain_16 gain_32 gain_64 other_gain : Gain

pub data Reference : Type 0 where
  ref_internal ref_external0 other_reference : Reference

-- `struct adc_channel_cfg`
pub record ChannelCfg : Type 0 where
  pub channel_id : ℕ
  pub input_positive : ℕ
  pub input_negative : ℕ
  pub is_differential : Bool
  pub gain : Gain
  pub reference : Reference

abbrev pub gain_bits_of : Gain → Option ℕ
gain_bits_of gain_1_3 = some 0b000
gain_bits_of gain_1 = some 0b001
gain_bits_of gain_2 = some 0b010
gain_bits_of gain_4 = some 0b011
gain_bits_of gain_8 = some 0b100
gain_bits_of gain_16 = some 0b101
gain_bits_of gain_32 = some 0b110
gain_bits_of gain_64 = some 0b111
gain_bits_of other_gain = none

abbrev pub vref_sel_bits_of : Reference → Option ℕ
vref_sel_bits_of ref_internal = some 1
vref_sel_bits_of ref_external0 = some 0
vref_sel_bits_of other_reference = none

-- `data->channel_map[id] = entry;`
unfoldable pub store_entry : Mcp356x → ℕ → ChannelMapEntry → Option (Code × Mcp356x)
store_entry d id entry =
    if ltb id (length d.channel_map)
    then some (success, record d { channel_map = set d.channel_map id entry })
    else none

-- `(mux_vin_p << 4) | mux_vin_m`, in a `uint8_t`. Inputs above MAX_INPUT_CHANNEL are only logged.
abbrev pub mux_of : ChannelCfg → ℕ
mux_of c = bit_or (c.input_positive * 16) c.input_negative % 256

unfoldable pub channel_setup : Bool → Mcp356x → ChannelCfg → Option (Code × Mcp356x)
channel_setup ready d c =
    if not ready
    then some (error enodev, d)
    else if ltb 8 c.channel_id
    then some (error enodev, d)
    else elim (gain_bits_of c.gain) [
      | none ↦ some (error enotsup, d)
      | some gain_bits ↦ elim (vref_sel_bits_of c.reference) [
        | none ↦ some (error enotsup, d)
        | some vref_sel_bits ↦ store_entry d c.channel_id (record {
          mux_reg = mux_of c;
          differential = c.is_differential;
          gain_bits = gain_bits;
          reference_bits = vref_sel_bits;
        })
      ]
    ]
