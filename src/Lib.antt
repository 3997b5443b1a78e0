-- ===== src/Lib.antt =====
-- crosspaste-server: a central hub that CrossPaste clients pair with and sync through.
--
-- The program keeps two stores of state. The registry (src/registry.rs) has the tunnels of devices
-- that are connected, the HTTP requests that wait for an answer over a tunnel, and rooms. The hub
-- (src/hub.rs) has the paired clients with their keys, the pairings that are under way, pastes and
-- file transfers; it writes through to tables (src/database.rs) and to files, signs and encrypts
-- with src/secure.rs, and describes the server with src/sync_info.rs. The handlers of the routes
-- (src/routes.rs) and of the administration (src/admin.rs) call both, with the shared state of
-- src/tunnel.rs, whose socket registers a device; src/proxy.rs puts HTTP through a tunnel.
--
-- Files and what they model:
--   Prelude         Boolean tests, lists, results and actions, integers, maps, bytes, text, texts of
--                   numbers and of bytes (Chars, Formats), what an action keeps (Keeps).
--   Config          src/config.rs: the settings and the durations made of them.
--   Protocol        src/protocol.rs: frames of a tunnel, public records.
--   RelayError      src/error.rs: the errors with status and code.
--   Registry        src/registry.rs. State, Devices, Requests, Rooms have the operations under
--                   their names; proxy_http is proxy_send up to its await and proxy_finish after
--                   it. Events has any sequence of calls, and of channels that sockets open
--                   and close. Sessions are shared objects, so they
--                   live in a store, and the map of devices has their addresses.
--   Codec           base64 and serde_json as records of functions, serde_json::Value as data.
--   Secure          src/secure.rs: messages, signatures, cipher, short code.
--   SyncInfo        src/sync_info.rs: the data, the rotation, the QR payload; Hosts has the choice of
--                   network interfaces, Records the description, the header and the TXT record.
--   Database        src/database.rs: tables as maps; each statement can fail and then changes
--                   nothing. Settings has the settings and what a change of them does, Recent the
--                   last pastes, Open the start with the import of a legacy state.
--   Auth            src/auth.rs: the token of a request.
--   Hub             src/hub.rs: State; Pairing (trust_v1, exchange_keys_v2, confirm_trust_v2,
--                   remove_client, tokens); Restart (load_or_create); Push (prepare_push,
--                   store_push_chunk, complete_push); Contents (pastes, SyncInfo, stored chunks);
--                   Streams (encryption in chunks); Challenges; Icons; Broadcast, Upload and
--                   Fetch, which send to hosts through World. Events has any sequence of calls.
--                   Invariant, Transfers and Durable relate the maps, the sessions of pushes with
--                   files and tables, and the hub before a restart with the one after it; Reports
--                   counts what a broadcast sends.
--   Tunnel          src/tunnel.rs: State is the shared state, Socket the life of a WebSocket.
--   Proxy           src/proxy.rs: proxy_to_device up to its await, proxy_answered after it; headers
--                   in both directions, and the target.
--   Admin           src/admin.rs: a handler is an action on the tables or on the shared state whose
--                   error is a response. Response, Passwords, Totp are what the handlers share;
--                   Login, Sessions, Mfa, Settings, Clients with Rows have the handlers. NewSession,
--                   SecondFactor and Issued are about log-in; Valid, Bounded, Keeps, Kept and Calls
--                   about settings and the log.
--   Routes          src/routes.rs: Guards is what the handlers share; Pairing, Pastes, Files, Rooms,
--                   Proxying, Logging have the handlers; Admission and Admits are about pastes.
--
-- What is assumed of the rest. Each call is one step, so that calls come in any order, but not one
-- between the reads and writes of another; the one exception is the await of proxy_http, while a
-- request to another host is answered within its step. Readings of the clock, UUIDs and random
-- bytes are arguments, in the order in which the code takes them. A failing statement or file operation is announced by a
-- list in the state (`faults`, `file_faults`). The cryptographic packages are the record `Crypto`,
-- with what is relied on in `CipherLaws` and `SignatureLaws`; base64 and JSON have `Base64Laws` and
-- `JsonLaws`. Argon2, SHA-256, HMAC and base32 are the record `Hashing`; the package http is
-- `HttpRules` with `HttpLaws`; the network interfaces are `Environment`. What hosts answer is a list
-- in the state (`World.replies`), and what was sent to them another. Concrete instances show that
-- these can hold. Where an error's text comes from a package, the text of the model is not that
-- one.
--
-- Bounds. An i64 is a `ℤ`; `as i64` of a wider number keeps the low 64 bits. Decimal digits take
-- 20 rounds, as a u64 has at most 20 digits. The loop of decrypt_stream_from_client takes as many
-- rounds as there are bytes, which is enough, since a round takes at least four; `slice::chunks`
-- takes as many as there are bytes, since a chunk has at least one.
--
-- Not modelled: the routers of axum with their layers and extractors, the pages and assets of the
-- administration, the SQL of the migration (its tables are the record `Database`), announcements
-- by mDNS (src/discovery.rs), the drawing of a QR code (src/qr.rs), start-up (src/main.rs), and the
-- example agent (src/bin/server_agent_example.rs): they are calls of libraries, or a program of its
-- own. The tasks that sync_paste starts are noted in the state (`tasks`, each is a relay_file), and
-- sync_push_complete hands out the push that its task hands on; neither is run by the handler.
pub mod Prelude
pub mod Config
pub mod Protocol
pub mod RelayError
pub mod Registry
pub mod Codec
pub mod Secure
pub mod SyncInfo
pub mod Database
pub mod Hub
pub mod Admin
pub mod Tunnel
pub mod Proxy
pub mod Routes
pub mod Auth
