-- ===== src/Lib.antt =====
-- SuperShare: one keyboard, mouse and clipboard for several machines.
--
-- A server captures the input of its user. At the right edge of its screen it enters remote mode, in
-- which the events go to a client that injects them. Clipboard content goes both ways. The machines
-- talk over two TLS channels per client, in frames.
--
-- Which file models which part:
--   Protocol   crates/ss-core/src/protocol.rs: messages, frames, clipboard content
--   Framing    crates/ss-network/src/framing.rs: read_frame and write_frame; Framing/Stream.antt also
--              the reader and writer tasks of crates/ss-network/src/client.rs over whole streams
--   Layout     crates/ss-input/src/boundary.rs: CoordinateSystem, the screens side by side
--   Cursor     crates/ss-input/src/virtual_cursor.rs: VirtualCursor, on the screens of Layout
--   Keys       key_to_u32 of crates/ss-input/src/warp_capture.rs, u32_to_key of
--              crates/ss-input/src/inject.rs
--   Capture    crates/ss-input/src/warp_capture.rs: the callback of rdev::grab, its state, its queue
--   Clipboard  crates/ss-clipboard/src: Sync (transfers), Monitor (polls and their suppression); Tasks,
--              what src/main.rs sends and writes with them
--   Cert       crates/ss-network/src/cert.rs: certificates; Authority, the server's CA on the disk
--   Certgen    src/certgen.rs and run_gen_cert of src/main.rs: certificates made by hand
--   Tls        crates/ss-network/src/tls.rs: the files that TLS is set up with
--   Pairing    crates/ss-network/src/pairing: Pin (PinManager), Crypto, Server (handle_pairing) and
--              Client (pair_with_server), cut where they wait; Run (one against the other)
--   Server     crates/ss-network/src/server.rs: the registry of clients and the two handlers; the
--              listener of its events and the forwarding of the input, of src/main.rs; Steps, all
--              connections in any order, with a change and the event that tells of it apart; Refines,
--              the registry as two maps
--   Config     crates/ss-core/src/config.rs: defaults, paired devices (Paired, Refines), files of trust
--              material (Trust), load and save (Store)
--   Inject     crates/ss-input/src/inject.rs: inject_event, and what the server's callback sends to it
--   Passive    the client of src/main.rs: its cursor, and when it gives the cursor back
--   Connect    crates/ss-network/src/client.rs: addresses, retries, connect and its handshakes
--              (Session), the ports it reaches (Ports)
--   App        src/main.rs and crates/ss-ui/src/state.rs: the shared state and the commands; Resolve
--              (which certificates), Handler (command_handler), Link (spawn_client_connection), Tasks
--              (the other tasks, and all changes in any order), Headless (the modes without a window),
--              Serve (`start` of crates/ss-network/src/server.rs)
--   Gui        crates/ss-ui/src/app.rs: the buttons and fields of the window
--   Handover   Capture, Server, Passive and Clipboard/Tasks together: the cursor goes and comes back
--   Listen     crates/ss-input/src/capture.rs: the capture that only listens
--   Display    detect_screen_size of src/main.rs, on Linux
--   FileIo     std::fs over the files of a disk, for Cert, Certgen and App
--   Base       numbers, lists, texts, UTF-8 and coordinates that they share
--   Examples   concrete runs, and parameters that satisfy what is relied on
--
-- How the code corresponds: a struct is a record, an enum a data type, a method that changes its
-- object a function to the new object. Errors are values of Outcome or none. A `u32` is a natural
-- number whose sums wrap at 2 ^ 32 where the code adds. `f32` and `f64` coordinates are multiples of
-- 1/256 pixel, exact below 2 ^ 16 pixels, which is taken for granted; a wheel delta is rounded to an
-- `f32`, whatever its size. A lock is held for a whole callback, so that one call is one
-- step; flags that other threads set are fields that have any value when a step begins. A stream is
-- the bytes still to come and how it ends. Time is in milliseconds, given to each step that asks.
--
-- Parameters: bincode (Wire), blake3 (Hash), zstd (Zstd), SPAKE2, HKDF and ChaCha20-Poly1305
-- (Primitives), rcgen (Rcgen, Issuer), rustls (Rustls), the network (Network), toml (Platform), bincode
-- at the provisioning payloads (ProvisionWire) and the texts of other crates' errors (Texts), with what
-- the code relies on as laws.
--
-- Fuel: the reader task of Framing/Stream.antt runs on fuel, and more fuel than the stream has bytes
-- is enough; `chunks_of` has a byte of fuel for every byte.
--
-- A file system is the files of a disk with their contents, and what can be written, created and have
-- its permissions set; a path is a text. What a command finds around it (the screen, the time, how a
-- pairing ends) is given to each command. Tasks that run at once are a relation with one change per step.
--
-- Not modelled: TCP, the TLS handshake and the tokio runtime, rdev, arboard, the widgets of egui and the
-- tray icon, which are I/O; the socket that finds the machine's address; the Windows branches; the log.
pub mod Base
pub mod Protocol
pub mod Framing
pub mod Layout
pub mod Cursor
pub mod Keys
pub mod Capture
pub mod Clipboard
pub mod Cert
pub mod Pairing
pub mod Server
pub mod Config
pub mod Inject
pub mod Passive
pub mod Connect
pub mod FileIo
pub mod Tls
pub mod Certgen
pub mod App
pub mod Gui
pub mod Handover
pub mod Listen
pub mod Display
pub mod Examples
