-- ===== src/Moonem.antt =====
-- src/moonem_common.h, src/moonem_common.c, src/moonem_sw.cpp and src/moonem.cpp: the emulator of
-- loss, delay and rate limits.
pub mod Loss
pub mod Ring
pub mod Delay
pub mod Rate
pub mod Hardware
