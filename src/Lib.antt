-- ===== src/Lib.antt =====
-- Verification library for ipmi-rs, a client of baseboard management controllers (BMCs).
--
-- The program. A client sends requests and receives responses (ipmi-rs-core/src/connection) over a
-- connection. The network connection (ipmi-rs/src/rmcp) puts each message into an IPMB packet
-- with checksums and a sequence number, perhaps enclosed in Send Message packets for a bridged
-- target, then into a session's datagram with an RMCP header; the same session carries the frames of a
-- serial console (Serial over LAN, SOL). Above it are traversals such as that of the System Event
-- Log (ipmi-rs/src/sel.rs).
--
-- The files.
--   Base: helpers. Tests has the Boolean tests, Lists the lists over native numbers, Results the
--   results of fallible code, Bits the masks on bytes, Bytes and Int the integers on the wire.
--   Connection: ipmi-rs-core/src/connection. NetFn is netfn.rs; Channel has `Channel`,
--   `LogicalUnit` and the targets of mod.rs and request.rs; Message is `Message`, `Request` and
--   `Response`; CompletionCode is completion_code.rs.
--   Rmcp: ipmi-rs/src/rmcp. Checksum is checksum.rs, Header is header.rs, Asf is asf.rs, Errors has the
--   error enums of mod.rs.
--   Rmcp/Sol: v2_0/sol.rs. Frame has `SolFlags` and `SolFrame`; Flow has `SolFlow`, where `accept` is
--   split at the places where the source branches: `note_ack`, `check_order` and `store`. Flow/Bounds has the
--   bounds, Flow/Position what the flow has of the stream, Flow/Stream whole sessions.
--   Rmcp/Ipmb: internal.rs. Packet has `ipmb_request` and `correlate`; State has `IpmbState`
--   with `begin`, `poll_message` and the reservations; Receive has `receive`; Receive/Safety, State/Fresh and
--   Session have their proofs.
--   Rmcp/V1_5: v1_5. Md2 is md2.rs, Auth is auth.rs, Message is message.rs, State has `send` and
--   `send_payload` of mod.rs, Receive its `recv`, where the branches of the source's loop are
--   `on_session`, `deliver` and `on_probe`; RoundTrip, Authentic, Replay and Session have their proofs.
--   Rmcp/V1_5/Commands has the commands of ipmi-rs-core/src/app/auth that ask for the capabilities, the cipher
--   suites, a challenge and a session; Rmcp/V1_5/Activation is `activate` of v1_5/mod.rs.
--   Rmcp/CipherPolicy: `select_best` of cipher_policy.rs; CipherPolicy/Choice has its proof.
--   Rmcp/V2_0: v2_0. Algorithms is ipmi-rs-core/src/app/auth/algorithms.rs; OpenSession and Rakp are the
--   messages of v2_0/messages and the checks on them in v2_0/mod.rs; Agreement and Handshake have the proofs.
--   Payload is `PayloadType`. Crypto is v2_0/crypto: Backend the digests and the cipher, Keys keys.rs, SubState
--   sub_state.rs, Packet the reading and writing of packets, State the codes of the handshake; RoundTrip,
--   Integrity, Confidentiality and Authentic have the proofs. Activation is `activate` of v2_0/mod.rs, with its steps
--   in Activation/Steps; Answers, Run and Authentic have the proofs. Session has the calls of the active
--   state: `send` and `send_sol_frame` there, `receive_one` in Session/Receive, and `recv` and `poll_sol` in
--   Session/Loops; Replay, Exchange and Signed have the proofs.
--   Rmcp/Activation: `activate` of internal.rs, which pings the controller, asks for its capabilities and makes the
--   session; Activation/Choice has its proof.
--   Fru: Commands and Inventory (with Records and Image) are commands.rs and inventory.rs of
--   ipmi-rs-core/src/storage/fru; Transfer is ipmi-rs/src/fru.rs, over a record of the connection's calls. Records/Lossless,
--   Fields, Layout, Transfer/Loop, Transfer/Content and Transfer/Outcome have the proofs.
--   App: Watchdog is ipmi-rs-core/src/app/watchdog.rs; User is user.rs beside it, DeviceId get_device_id.rs,
--   ChannelAccess get_channel_access.rs and GlobalEnables global_enables.rs. Watchdog/RoundTrip, User/Requests and ChannelAccess/Stored have the proofs.
--   Sel: `SelIter` of ipmi-rs/src/sel.rs. `next` is the function of the same name, with the loop
--   on fuel; Sel/Bounds and Sel/Traversal have its proofs. Sel/Entry is `Entry::parse` and Sel/Commands the
--   commands of ipmi-rs-core/src/storage/sel; Sel/Stored has their proof.
--   Sdr: the answer to Get SDR Repository Info, ipmi-rs-core/src/storage/sdr/get_info.rs.
--
-- The model. A method is a function from the state to the state and a result; a panic is `none`.
-- Bytes are numbers below 256, and a theorem that needs that says so. Arrays of two are two
-- fields. A deadline is an opaque number. `receive_nested` recurses on the number of depths that
-- are left, which is the bound of the source itself, 3. The loop of the SEL traversal takes fuel, and
-- `none` is a lack of it; each turn spends a read, so one more than the reads left is enough.
--
-- Each Examples file has concrete values for the theorems of the file above it.
--
-- The loop that reads a FRU image takes fuel, too: one turn for each byte and each shrink of the
-- chunk is enough. The readers of FRU fields and records and of cipher suites take the bytes that are
-- left as fuel, since each turn consumes one. The loop of `recv` runs over a list of events: the datagrams, the times at
-- which a queue probe is due, and the errors of the socket; the deadline is the list's end. MD5 is a
-- parameter, which is absent without the source's feature; so is the connection of the FRU transfers.
--
-- The digests and the block cipher of RMCP+ are a parameter, `Backend`, and so are the socket of an activation,
-- `Socket`, the exchange of a command, `Exchange`, and the answer to the ping, `Peer`. The loop that lists the
-- cipher suites runs over a budget of 64 pages, which is the range of the list index in the source.
--
-- Not modelled: sockets, clocks and devices, which are I/O; the digests and the block cipher, which are other
-- crates; the parsers of SDR records, sensors and events, the commands of chassis, LAN, DCMI, PEF and firmware, the
-- client of the serial console above the session, and the vendors' commands.
pub mod App
pub mod Base
pub mod Connection
pub mod Fru
pub mod Rmcp
pub mod Sdr
pub mod Sel
