-- ===== src/Sniff.antt =====
-- src/moonsniff.cpp: the live mode's table of time stamps with its statistics, and the two loggers.
pub mod Table
pub mod Pcap
