-- ===== src/Lib.antt =====
-- yourConnector pairs a phone with AI tools on a computer. The Rust services are the relay
-- (services/relay), to which both sides connect, and the sidecar (services/sidecar), which runs on the
-- computer. This library models the relay's authentication, pairing and rooms, the messages that it
-- passes on, and what the sidecar does with a command that it reads in one.
--
-- The relay. `Relay.Api` holds the records, claims and errors of services/relay/src/api/types.rs and
-- error.rs, and `Relay.State` and `Relay.Rooms` the state and the methods of src/state.rs: the rooms of
-- the systems online (`SystemRoom`, with its connections and two replay caches), the stored metadata
-- (`AuthStore`), and the nonces of requests. `Relay.Auth` is src/auth: `Pop` is pop.rs, `TokenCrypto`
-- token_crypto.rs, `Token` token.rs, and `Handlers` has one module for each file of auth/handlers
-- (`Session` is the part of refresh.rs that checks the old session). `Relay.Pairing` is src/pairing:
-- `Ticket` is ticket.rs, `Bootstrap` bootstrap.rs, and `Handlers` is pairing/handlers (`Ticket` also has
-- preflight.rs). `Relay.Ws` is ws/handlers/auth.rs, and `Relay.Ws.Envelope` ws/envelope.rs. `Relay.Ops`
-- puts the handlers that touch the metadata into sequences of requests.
--
-- A handler is a function from the state to a result and a state (`Common.Exec`): what was written
-- before an error stays written, as in the source. Handlers run one after another; the lock of the
-- metadata is held over the part of each that changes it, and an interleaving inside a handler is not
-- modelled. What a handler reads from outside is an argument (`Readings`): each reading of the clock,
-- the random ids and secrets, and what the writing of the file answered. The answer of `try_send` for a
-- client is one too, and the offered commands are a result.
--
-- base64, HMAC, SHA-256, ed25519 and serde_json are the fields of `Relay.External.Crypto`; the laws that
-- a theorem asks of them stand among its hypotheses (`IsBase64`, `IsHmac`, `TicketJson`, `ReadsU64`), and
-- `Relay.Toy` is an instance that has them. The `url` crate is an argument of
-- `build_pair_bootstrap_data`. A `u64` is a native number, and `saturating_add` is written out. A
-- `HashMap` is an association list (`Common.HashMap`); proofs go by the laws of its operations. Text is
-- the native string, with the functions of `str` in `Common.Text`.
--
-- The sidecar (services/sidecar/src). `Sidecar.Control` is control.rs: from the text of a message to a
-- command with its source; `Control.Content` reads the parts of a chat, and `Control.Parse` has one
-- function for each kind of command. `Sidecar.Stores` is stores.rs: the whitelist of tools and the
-- devices that may control the sidecar, where each saving takes how the writing of its file ended.
-- `Sidecar.Session.Command` is `handle_sidecar_command` of session/loop/command.rs: `Context` its
-- context and outcome, `Refusal` who may command, `Tools`, `Requests` and `Media` the commands, and
-- `Handle` the whole; a command is a function from the session to an outcome and a session, and what
-- processes, files and the connection do for it is in `Host`. `Sidecar.Session.Chats` and
-- `Sidecar.Session.Reports` are the registries of running requests of chat.rs and report.rs,
-- `Reports.Paths` says which files a report may be read from and `Reports.Chunks` how it is read,
-- `Sidecar.Session.Launch` has the checks before a tool is launched, `Sidecar.Session.Details` the
-- scheduling of details of session/loop/mod.rs, `Sidecar.Session.Transport` the sending of events, and
-- `Sidecar.Session.Tool` what is known of a tool. `Sidecar.Session.Queue` is session/queue/mod.rs: a
-- bounded queue that is served first, and behind it one slot for each key whose latest item wins.
-- `Queue.Spec` is the abstract queue, without depths and orders, which the other modules relate it to.
--
-- The two services meet in the messages: `Sidecar.Control.Source` follows one from the relay's
-- cleaning to the sidecar's reading, and `Sidecar.Session.Command.Strangers` on to the command, whose
-- answer is in `Command.Refused`. A
-- `HashSet` is a list (`Common.HashSet`), and a JSON value is `Common.Json.Value`, the text of which
-- serde_json reads and writes (`Serde`, a parameter). A PID is taken to be a natural number.
--
-- The loops are structural recursions on a list or a text, but for the inner loop of a report
-- (`Reports.Chunks.flush`): its fuel is one more than the bytes that it starts with, which is enough
-- since each turn that goes on takes some of them away, and `none` is what no fuel left would give.
--
-- Not modelled: the websocket's reader and writer loops (ws/handlers/http.rs), HTTP routing, files,
-- logs and terminal output of the relay; of the sidecar the running of a chat, the
-- stopping of processes and the storing of media, the merging of events in `run_session`, the
-- configuration, the snapshots and the reading of tools; the shared protocol crate but for the types
-- that commands use; the mobile app, which is not a Rust service.
pub mod Common
pub mod Relay
pub mod Sidecar
