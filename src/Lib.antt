-- ===== src/Lib.antt =====
-- rmosh: a mobile shell in Rust that talks to C++ mosh. A client and a server keep two states in
-- step, what the user has typed and what the screen shows, over UDP datagrams that may be lost,
-- repeated and reordered.
--
-- The parts and how they meet. A sender (crates/mosh-network/src/sender.rs) keeps its current
-- state and the states that it has sent, and makes an instruction that holds the diff between two
-- of them. The fragmenter (crates/mosh-network/src/fragment.rs) encodes, compresses and cuts it;
-- each fragment travels as the payload of a packet (crates/mosh-network/src/packet.rs) that the
-- connection (crates/mosh-network/src/connection.rs) seals under a fresh nonce
-- (crates/mosh-crypto/src/lib.rs). The other end opens it, rejects what it has seen, collects the
-- fragments, and its transport (crates/mosh-network/src/transport.rs) applies the instruction to
-- the states that it holds. The state of the client is the stream of
-- crates/mosh-state/src/user.rs; what the server shows is the screen of an emulator
-- (crates/mosh-terminal/src/emulator.rs). It feeds the bytes of the host to the parser
-- (crates/mosh-terminal/src/parser.rs), prints the characters and hands the sequences to the
-- dispatcher (crates/mosh-terminal/src/dispatcher.rs), whose functions change the framebuffer
-- (crates/mosh-terminal/src/framebuffer.rs). The launcher of crates/mosh/src builds the command
-- line that starts the server over ssh, and reads from what comes back the port and the key; the
-- server reads that command line in crates/mosh-server/src/args.rs.
--
-- Files. Prelude and its children hold what is shared: tests on numbers, lists over the native
-- numbers, results, bytes and words. Crypto/Base64 is crates/mosh-crypto/src/base64.rs; Crypto/Key
-- (keys, nonces, the counter Unique) and Crypto/Session (encrypt, decrypt) are
-- crates/mosh-crypto/src/lib.rs. Under Network, each for the file of that name in
-- crates/mosh-network/src: Compressor; Fragment, Assembly (FragmentAssembly) and Fragmenter for
-- fragment.rs, with Reassembly for their round trip; Packet; Connection/State (ConnectionState)
-- and Connection (Connection); Sync (the trait SyncState and what the sender calls of a
-- connection), Sender (the queue and the timers) and Sender/Send (tick and what it sends);
-- Transport. Network/Transport/Datagram puts the parts together for one datagram. State/User is
-- the user's stream, and Pipe/Stream that of crates/mosh-pipe/src/stream.rs. Terminal/Parser is
-- the state machine, and Terminal/Utf8 the byte decoder over it, with MbDecoder of
-- crates/mosh-sys/src/locale.rs. Terminal/Renditions, Terminal/Cell (cells and rows),
-- Terminal/DrawState and Terminal/Framebuffer are crates/mosh-terminal/src/framebuffer.rs;
-- Terminal/Dispatcher (the parameters of a sequence), Dispatcher/Functions and Dispatcher/Editing
-- (the functions), Dispatcher/Osc (commands) and Dispatcher/Table (the table and dispatch) are
-- crates/mosh-terminal/src/dispatcher.rs; Terminal/Emulator and Terminal/UserInput are
-- crates/mosh-terminal/src/emulator.rs. Terminal/Text is what those use of the strings of Rust.
-- Mosh/Handshake is crates/mosh/src/handshake.rs; Mosh/Shell is the quoting of
-- crates/mosh/src/opts.rs and of server_command in crates/mosh/src/launch.rs, Mosh/Opts the option
-- parser of the first and Mosh/Launch the arguments for the server of the second; Server/Args is
-- crates/mosh-server/src/args.rs. In these a string is the list of its characters, and Strings
-- holds what they use of the standard library. The child modules of a part hold its proofs. Tests
-- holds the runs on concrete inputs.
--
-- How the code is read. A struct is a record, an enum a data type, a method a function from the
-- state to the state and the result. A u16, u32 or u64 is a number, and the arithmetic that may
-- wrap does so at its width, as a release build does; usize sums do not reach 64 bits. A Vec, a
-- deque or an ordered map is a list. In the network and the crypto modules, where the code would
-- panic the model has a default that the invariants show to be out of reach. In the terminal,
-- whose input is not trusted, whatever may panic gives an Option: an index out of range, a clamp
-- whose ends have crossed, a drain or a splice past the end; `none` is the panic. There an i32 is
-- its pattern of 32 bits, so that -1 is 2 ^ 32 - 1, its sums wrap, and its comparisons are of
-- signed numbers (Prelude/Words). A String is the list of its bytes, a Vec of characters that of
-- their numbers, and the counter of row generations is a field of the framebuffer; an Rc that is
-- shared is copied before it is written, so rows are values. A method whose recursion is a loop is
-- recursive on the list, or on fuel: the loop of make_fragments takes 2 ^ 15 + 1 rounds at most,
-- since the number of a fragment has 15 bits and the code itself tests it, the loop that decodes
-- bytes takes one round for each byte in the buffer, and the loop of csi_sgr one for each
-- parameter at most, since it goes on by at least one. A range of i32 is walked from its start for
-- as many rounds as it has numbers.
--
-- Parameters. Not read here, and therefore arguments with named hypotheses where a theorem needs
-- them: AES-OCB (Cipher, IsAead), zlib and the generated coding of instructions (Libraries,
-- IsLossless), the coding of user messages (UserCodec, IsUserCodec), mbrtowc (Locale, TakesWithin,
-- Encodes), wcwidth and wcrtomb (WideChars, with no hypothesis), the lower case of a text, the
-- operations on f64 (Floats), and what the operating system answers to a send (System) and has
-- ready on a socket.
--
-- Not modelled: opening sockets and reading the clock, random keys, the display and the screen's
-- state above the emulator (crates/mosh-terminal/src/display.rs,
-- crates/mosh-state/src/complete.rs) with the comparison of framebuffers by the address of their
-- rows, debug printing, the texts of errors, the announcement and the host name that
-- crates/mosh/src/launch.rs puts together, the client's prediction and overlays, what mosh and
-- mosh-server do with the operating system, the loop of mosh-pipe, and the bindings of mosh-sys.
-- The self-check of the sender at verbose levels only reports, and is left out.
pub mod Prelude
pub mod Crypto
pub mod Network
pub mod State
pub mod Pipe
pub mod Terminal
pub mod Strings
pub mod Mosh
pub mod Server
pub mod Tests
