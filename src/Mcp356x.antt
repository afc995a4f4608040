-- ===== src/Mcp356x.antt =====
-- The ADC driver drivers/adc/mcp356x/mcp356x.c: the registers over SPI, the start, the channels and
-- the read.
pub mod Registers
pub mod Channels
pub mod Reads
pub mod Bounds
pub mod Overruns
mod Tests
