-- ===== src/Windlass.antt =====
-- serialmux-rs/src/windlass and the windlass-bridge program: codecs, dictionaries, relays, command line.
pub mod Framing
pub mod Dictionary
pub mod Relay
pub mod Smart
pub mod Bridge
pub mod Socket
