-- ===== src/Channel.antt =====
-- serialmux-rs/src/channel.rs: the channel implementations, and what they ask of the world.
pub mod Effect
pub mod Token
pub mod Interface
pub mod Mcu
pub mod Pty
pub mod Tcp
pub mod Any
mod Tests
