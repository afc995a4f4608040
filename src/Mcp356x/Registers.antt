-- ===== src/Mcp356x/Registers.antt =====
-- The register access and the start of mcp356x.c. Log and dump output is left out.
use backplane_flight_compute.Base.{
  ℕ, ◌+◌, ◌*◌, ◌/◌, ◌%◌, ◌^◌, ◌-◌, Bool, not, List, [], ◌∷◌, ltb, get_or, bit_or, bit_xor,
}
use backplane_flight_compute.Zephyr.{
  Code, success, error, enodev, enotsup, Driver, ◌>>=◌, ◌>>◌, check, return_if, pure, Machine, Spi,
  act, fill, device, set_device,
}

-- `enum MCP_Reg`, as far as the driver names its members
abbrev pub adcdata : ℕ
adcdata = 0x0

abbrev pub config0 : ℕ
config0 = 0x1

abbrev pub config1 : ℕ
config1 = 0x2

abbrev pub config2 : ℕ
config2 = 0x3

abbrev pub config3 : ℕ
config3 = 0x4

abbrev pub irq : ℕ
irq = 0x5

abbrev pub mux : ℕ
mux = 0x6

abbrev pub scan : ℕ
scan = 0x7

abbrev pub timer : ℕ
timer = 0x8

-- `struct channel_map_entry`
pub record ChannelMapEntry : Type 0 where
  pub mux_reg : ℕ
  pub differential : Bool
  pub gain_bits : ℕ
  pub reference_bits : ℕ

-- `struct mcp356x_data`
pub record Mcp356x : Type 0 where
  pub channel_map : List ChannelMapEntry
  pub enabled_channels_bitmap : ℕ
  pub config0_reg : ℕ
  pub config1_reg : ℕ
  pub config2_reg : ℕ
  pub config3_reg : ℕ
  pub mux_reg : ℕ

-- `struct mcp356x_config`; the enums are numbers, and the bus is a parameter.
pub record Mcp356xConfig : Type 0 where
  pub device_addr : ℕ
  pub osr : ℕ
  pub prescale : ℕ
  pub clock : ℕ

-- `(reg << 2) | (config->device_addr << 6) | mask`, in a `uint8_t`
abbrev pub command_specifier : ℕ → ℕ → ℕ → ℕ
command_specifier addr reg mask = bit_or (reg * 4) (bit_or (addr * 64 % 256) mask) % 256

unfoldable pub sign_extend_24_32 : ℕ → ℕ
sign_extend_24_32 x = (bit_xor x (2 ^ 23) + 2 ^ 32 - 2 ^ 23) % 2 ^ 32

module _ {W : Type 0} (bus : Spi W) (cfg : Mcp356xConfig) where
  -- The byte goes out by its pointer whatever the call returns.
  unfoldable pub mcp_read_reg_8 : ℕ → W → Code × ℕ × W
  mcp_read_reg_8 reg w =
      let (res, reg8, w') =
        bus.transceive (command_specifier cfg.device_addr reg 0x01 ∷ 0 ∷ []) 2 w in
      (res, get_or reg8 1 0, w')

  unfoldable pub mcp_read_reg_24 : ℕ → Driver (Machine Mcp356x W) ℕ
  mcp_read_reg_24 reg = do
    (ret, reg24) ← fill (bus.transceive (command_specifier cfg.device_addr reg 0x01 ∷ 0 ∷ []) 5)
    check ret
    pure (bit_or (get_or reg24 1 0 * 2 ^ 16) (bit_or (get_or reg24 2 0 * 2 ^ 8) (get_or reg24 3 0)))

  unfoldable pub mcp_write_reg_8 : ℕ → ℕ → Driver (Machine Mcp356x W) Code
  mcp_write_reg_8 reg byte =
      act (bus.write (command_specifier cfg.device_addr reg 0x02 ∷ byte ∷ []))

  unfoldable pub mcp_write_reg_24 : ℕ → ℕ → Driver (Machine Mcp356x W) Code
  mcp_write_reg_24 reg word = act (
      bus.write (
        command_specifier cfg.device_addr reg 0x02
        ∷ word / 2 ^ 16 % 256
        ∷ word / 2 ^ 8 % 256
        ∷ word % 256
        ∷ []))

  -- mcp356x_init. The codes of its writes are not looked at.
  unfoldable pub init : Driver (Machine Mcp356x W) Code
  init = do
    d ← device
    set_device (record d { enabled_channels_bitmap = 0 })
    return_if (not bus.is_ready) (error enodev)
    return_if (ltb 3 cfg.clock) (error enotsup)
    let byte0 = bit_or (2 ^ 7) (bit_or (2 ^ 6) (bit_or (cfg.clock * 16) 3)) % 256
    d ← device
    set_device (record d { config0_reg = byte0 })
    _ ← mcp_write_reg_8 config0 byte0
    return_if (ltb 3 cfg.prescale) (error enotsup)
    let byte1 = bit_or (cfg.prescale * 64) (cfg.osr % 256 * 4) % 256
    d ← device
    set_device (record d { config1_reg = byte1 })
    _ ← mcp_write_reg_8 config1 byte1
    let byte2 = bit_or (2 * 64) (bit_or (0 * 8) (bit_or (0 * 4) (bit_or (1 * 2) 1)))
    d ← device
    set_device (record d { config2_reg = byte2 })
    _ ← mcp_write_reg_8 config2 byte2
    let byte3 =
        bit_or (3 * 64) (bit_or (0 * 16) (bit_or (0 * 8) (bit_or (0 * 4) (bit_or (0 * 2) 0))))
    d ← device
    set_device (record d { config3_reg = byte3 })
    _ ← mcp_write_reg_8 config3 byte3
    _ ← mcp_write_reg_8 irq 0b00110111
    _ ← mcp_write_reg_24 scan 0
    _ ← mcp_write_reg_24 timer 0
    pure success
