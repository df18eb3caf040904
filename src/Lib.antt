-- ===== src/Lib.antt =====
-- MumDota connects a browser to a Mumble server. This library models its server part, src/, and
-- proves what its components promise.
--
-- The program. A WebSocket connection (src/ws/handler.rs) reads the messages of src/ws/messages.rs and
-- calls the session manager (src/session.rs). A session holds a Mumble client, whose control connection
-- (src/mumble/client.rs) keeps the tables of channels and users and reports events; a WebRTC session
-- (src/webrtc/mod.rs), which negotiates with the browser; and, once the voice keys have come, an audio
-- bridge (src/bridge.rs), which numbers the browser's Opus packets for Mumble and hands Mumble's voice
-- packets to the tracks of the speakers (src/webrtc/speakers.rs). Media may go through a built-in TURN
-- server (src/turn), whose users have short-lived credentials of their session. src/server.rs starts the
-- parts and upgrades requests to WebSockets; src/config.rs reads their configuration.
--
-- The files.
--   Base          shared types: native numbers, lists, options, results, maps, machine words.
--   Opus          src/bridge.rs: opus_packet_total_samples and its helpers.
--   Uplink        src/bridge.rs: UplinkClock and the uplink task of AudioBridge::start, one event of
--                 its select! at a time.
--   Speakers      src/webrtc/speakers.rs: MediaClock::packet, SpeakerTracks::add, remove and write.
--   Credentials   src/turn/credentials.rs: issue_at, revoke and authenticate_at.
--   Stream        src/turn/stream.rs: StreamConn, its framing, its sends and receives.
--   Relay         src/turn/relay.rs: MediaRelayConn and MediaRelayGenerator.
--   Messages      src/ws/messages.rs: the messages as data.
--   Control       src/mumble/client.rs: handle_control_packet and the packets of a connection.
--   Proto         src/mumble/proto.rs: the builders of the packets that are sent.
--   Client        src/mumble/client.rs: the task of MumbleClient::connect, one arm of its select! at
--                 a time; Client/Browser puts it together with Events.
--   Voice         src/mumble/voice.rs: the UDP task of MumbleVoice::run and the handle on it.
--   Capture       src/webrtc/audio.rs: the reader of the browser's audio track.
--   Pipeline      Capture, Uplink and Voice side by side, with a channel between each two.
--   Negotiation   src/webrtc/mod.rs: offer, answer and add_ice_candidate of WebrtcSession.
--   Sessions      src/session.rs: connect_user, disconnect_user, finish_session, close and the commands.
--   Service       src/session.rs: all methods of SessionManager as the handler calls them, on the state
--                 of Sessions, Negotiation and Turn together.
--   Events        src/session.rs: the select loop of process_events.
--   Config        src/config.rs: the structs, their defaults and validate.
--   Env           src/config.rs: expand_env_vars; Env/Overrides: apply_env_overrides; Env/Load:
--                 Config::load.
--   Turn          src/turn/mod.rs: TurnService with its listeners, servers and credentials.
--   Server        src/server.rs: ws_upgrade, readiness and run.
--   Handler       src/ws/handler.rs: handle_ws_connection and handle_client_message.
-- The child modules of a component hold its theorems, named for what they prove, and Tests runs it on
-- concrete inputs.
--
-- State. A struct is a record and its methods take and give that record. Fallible code gives a Result
-- and the state beside it. A hash map is an association list in the order of its iteration. An Arc
-- that two tasks share is a number, the place of the session in a heap. A task is a list of the events
-- that its select! takes, and code between two awaits is one step, so that a theorem over all lists of
-- steps covers every interleaving of those steps. What goes to a channel is a
-- list, newest first where a state keeps it, and in order where a handler gives it.
--
-- Numbers. Machine integers are native natural numbers with their wrap-around written out: frame
-- numbers modulo 2 ^ 64, RTP times modulo 2 ^ 32, RTP sequence numbers modulo 2 ^ 16. Instants are
-- nanoseconds. Loops are structural recursion on what they read, but for two: expand_env_vars runs on
-- fuel, the length of its text, which each turn of the loop shortens; and the digits of a number are
-- taken on fuel 20, which is enough for a u64.
--
-- Parameters. The peer connection of the webrtc crate (PeerOps), the answers of the Mumble voice
-- channel and of add_track, the UUIDs and the key of a credential (Draw), the key sizes of the
-- mumble_protocol crate (Sizes), the conversion of a duration to RTP ticks, which the code does in
-- floating point, what a cancelled call has done (Manager.cancelled) and what other tasks do to a
-- session between two events (Answers) are arguments; so are the answers of the resolver, Mumble, the
-- clock and the UUIDs to the calls of one connection, and what other tasks do between these (World); so
-- are the variables of the environment and what the toml crate makes of a text and of a table (Env/Load).
-- Of a channel between two tasks (Pipeline) it is used that it gives out what it took once and in order.
-- Of the peer, one theorem uses that making and setting an offer do not end the wait for an answer, and
-- that a description it refuses changes nothing (Orderly); what else it answers is an argument.
--
-- Not modelled. Sockets, TLS, timers and logging; JSON, protobuf and TOML codecs; the encryption of
-- voice; the servers and allocations of the turn crate, of which Turn knows only whether a server is
-- still held; routing in src/server.rs; src/main.rs; the task that sets voice up, whose effect on a
-- session stands in Sessions as far as closing depends on it.
pub mod Base
pub mod Opus
pub mod Uplink
pub mod Credentials
pub mod Speakers
pub mod Stream
pub mod Relay
pub mod Messages
pub mod Control
pub mod Negotiation
pub mod Sessions
pub mod Handler
pub mod Events
pub mod Config
pub mod Proto
pub mod Client
pub mod Voice
pub mod Capture
pub mod Pipeline
pub mod Env
pub mod Turn
pub mod Server
pub mod Service
