-- ===== src/Lib.antt =====
-- A model of serialmux-rs, the multiplexer that carries serial ports and TCP connections of a
-- printer over one USB link, and of windlass-bridge, its newer transport.
--
-- The program's parts. A daemon on each side of the link reads bytes into a frame parser, hands each
-- frame to the channel it names, and writes the frames that the channels queue. A channel is a UART
-- (McuChannel), a pseudo terminal (PtyChannel), a TCP listener (TcpSourceChannel) or the side that
-- opens the TCP connections (TcpDestChannel). The windlass transport is a second program on the same
-- link: a host that serves Klipper on sockets and an exporter at the UARTs, which pass Klipper frames
-- on as they are (transparent) or end Klipper's transport on either side (smart).
--
--   Base            Boolean tests and the list lemmas that all parts share
--   Protocol        serialmux-rs/src/protocol.rs: constants, Frame, build_frame
--   Protocol/Bytes  integers as little-endian bytes
--   Protocol/Parser FrameParser: the state is buf[..len]; round is one pass of the loop of
--                   drain_frames, drain the loop, feed_from the outer loop of feed; the calls of the
--                   callback are a list
--   Protocol/TxQueue  TxQueue at its real size: enqueue, drain_to_fd with what write returns
--   Channel/Effect  what a handler asks for (frames for the queue, registry calls, closed
--                   descriptors), in order; the system calls' results are arguments of the handlers
--   Channel/Token   serialmux-rs/src/channel.rs: the tokens of the poll loop
--   Channel/Mcu, Channel/Pty, Channel/Tcp/Source, Channel/Tcp/Dest  the four channels of
--                   serialmux-rs/src/channel.rs: a record for the struct and a function for each
--                   method; Event is one call of the Channel trait, handle that call, handle_all a
--                   history of calls
--   Channel/Interface, Channel/Any  the Channel trait as a record of operations, and Box<dyn Channel>
--                   as a type with the four channels; Answers is what the system calls of one call
--                   return
--   Channel/Tcp     what both TCP channels use: connection ids, slots, interests, pieces of a read
--   Daemon          serialmux-rs/src/daemon.rs: Daemon and its methods, over any channels with that
--                   interface; each method gives the new state with the registry calls it makes, in
--                   order, and puts the frames that the channels ask for into the queue
--   Daemon/Loop     next_timeout and run: a Round is what one pass of the loop meets, the readings of
--                   the clock, the results of the system calls and the poll events
--   Cli             serialmux-rs/src/main.rs: the value parsers, with the errors as constructors, and
--                   validate_unique_channel_ids; Cli/Text is what they use of the standard library's
--                   texts, Cli/Build is build_channels, where none stands for the exit of the program
--   Serial          serialmux-rs/src/serial.rs: the opening of a port and of a pseudo terminal, with the
--                   descriptors that stay open; read_nonblock and write_nonblock
--   Windlass/Framing  serialmux-rs/src/windlass/framing.rs: TunnelCodec, PayloadTunnelCodec and
--                   KlipperFramer; each decode returns the item with what is left of the buffer
--   Windlass/Dictionary  send_dictionary of serialmux-rs/src/windlass/smart_exporter.rs and
--                   gather_dictionary of serialmux-rs/src/windlass/smart_host.rs
--   Windlass/Relay  the transparent relays: Host is serialmux-rs/src/windlass/host.rs, Exporter is
--                   serialmux-rs/src/windlass/exporter.rs, Link both with the link between them
--   Windlass/Smart  the smart ones: Proxy is ProxyConfig of serialmux-rs/src/windlass/smart_host.rs,
--                   Identify Klipper's requests to it, Connection its connection handler and main
--                   loop, Exporter is serialmux-rs/src/windlass/smart_exporter.rs, Link both for the
--                   commands, Pipe an mpsc channel with the task behind it
--   Windlass/Bridge serialmux-rs/src/bin/windlass_bridge.rs: the channel specs and the choice of relay
--   Windlass/Socket prepare_socket_path of serialmux-rs/src/windlass/mod.rs
--
-- Tasks. The tokio tasks of the relays are cut at their awaits: an Event is what one await of one task
-- returns, step what the task then does up to its next await, IsEnabled when the await can return so.
-- Reach holds of the states after any order of enabled events, with the events. An unbounded channel
-- is the list of what waits in it; a task that ends drops its receiver, and what waits is lost. The
-- relays run from the open sockets and UARTs on, until the main loop ends.
--
-- Numbers and bytes. A byte is a number, a list of bytes a Vec<u8>; what is written out where the
-- source narrows a number is the remainder. Times are in milliseconds.
--
-- Fuel. The loops of drain_frames, feed, KlipperFramer::decode and of the cuts of a read and of a
-- dictionary run on fuel: one more than the bytes at hand (or as many as the bytes for the cuts).
-- Each round that goes on takes a byte or more away, so that the fuel is enough.
--
-- Parameters. crc32fast::hash is an argument; the round trips assume that its result is below
-- 2 ^ 32, as its type u32 has it. Results of read, write, accept, connect, open and of the clock are
-- arguments of the handlers. The histories of the transmit queue assume that write returns no more
-- than the bytes it was given. FramedRead is a function with the documented law that it calls decode
-- for as long as that gives an item (IsFramed); the variable-length integers of the anchor crate are
-- functions with the law that reading gives back what was written (IsVlq). What the transports of the
-- anchor and windlass crates decode and put out stands in the events.
--
-- The daemon's HashMap of channels is the list of its entries in the order in which it is iterated. That
-- order is the map's own: where a new key comes in it is decided by an argument of Daemon::new, of which
-- nothing is assumed. It stays while no key is added, as it does in the program, which adds none later.
-- Two readings of one clock are two arguments, where the source takes two.
--
-- Not modelled: the accept loop of the smart host, which waits for the dictionary; what clap checks by
-- itself; the search for a USB device and the wait for it; the texts of errors and logging; what the
-- system calls do, and windlass/async_serial.rs, which is made of them; a registry call that fails;
-- the C program that this crate was ported from.
pub mod Base
pub mod Protocol
pub mod Channel
pub mod Daemon
pub mod Cli
pub mod Serial
pub mod Windlass
