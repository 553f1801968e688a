-- ===== src/Lib.antt =====
-- LinkSocks: SOCKS and HTTP proxying through WebSocket tunnels, written in Go.
--
-- The program has a server (relay), clients of both directions, and members of zones. They speak
-- one binary protocol over WebSocket links. A proxied connection is a logical channel: it numbers
-- and keeps its data messages, and moves from a direct link back to the relay link when the
-- direct one fails. Reverse clients get the ports they listen on from a port pool. A zone is a
-- layer-2 overlay whose traffic passes a firewall of ordered rules.
--
-- Which file models what:
--   Message, linksocks/message.go: Types holds the message records and their sum, Codes the wire
--     codes, Pack `PackMessageWithVersion`, Parse and Body `parseMessageBody` and its callers,
--     Version the version byte and its selectors, Uuid the text form of identifiers.
--   Channel, linksocks/channel.go: State is `logicalChannel`, Sending the calls that write
--     (`WriteMessage`, `switchToFallback`, `switchToRelay`, `replayPending`, `Close`), Receiving
--     `acceptData`, `rejectData`, `acknowledge` and the grace window, Suspension what the calls do
--     to that window.
--   PortPool, linksocks/portpool.go: `Get`, `Put` and the constructors.
--   Zone.Rules, zone/rules.go: Ports the port forms, Ruleset the compilation and the match, Frames
--     `ethernetFlow`. Zone.Addresses is what zone/ uses of `net/netip`, for IPv4.
--   Zone.Cipher, zone/crypto.go: State is `packetCipher` with `seal` and `open`, Streams and Frames
--     the messages of the three kinds, Window the replay window, Sealing and Exchange what is
--     read back, Numbering the sequence numbers.
--   Zone.Streams, zone/streams.go: Queue is `frameQueue`, Stream `zoneStream` and its entry in the
--     table, Delivery and Life what holds of them over any run of calls.
--   Zone.Socks, zone/socks.go: Requests is what the SOCKS server reads, answers and decides; what a
--     client sends against what is read is in RoundTrip, the bounds of a datagram in Safety.
--   Secure, linksocks/secure_channel.go: Session is `secureSession` with its writes and its reads,
--     Handshake `run` up to the established session, Grace `writeWithGrace`, Dispatch `dispatch`,
--     Hub `secureHub` with `openChannel` and `acceptChannel`, Transport `openChannelTransport`;
--     Agreement runs the handshake of two sessions, Delivery what one writes and the other reads,
--     Registry the table of sessions. Noise is what is used of github.com/flynn/noise.
--   Server, linksocks/server.go: Cache is `connectorCache` with the buffers, the bindings and the
--     grace cleanup of a channel, Selection `getNextWebSocketLocked`, Tokens the additions of
--     tokens, Clients their removal and the check of a client's token; Returns, Expiry, Registered,
--     Adding, Removal and History are proofs.
--   Relay, linksocks/relay.go: Orphans is the buffers of data that arrives before its channel,
--     Arrivals what a channel finds in them; Grace is `writeWithTransportGrace`, Settling how it
--     ends; Base64 is `base64Encode`, Decoding reads it back; Entry is `HandleSocksRequest` up to
--     the request, Upstream `dialViaSocks5`, Credentials who gets past the former, Reading and
--     Dialogue what the one reads of the other.
--   Access, linksocks/access.go: Specs the rules and their address forms, Control
--     `NewAccessControl` and `Allow`, Decision what is permitted.
--   Link, linksocks/conn.go: `isStale`, `Ping` and the pong handler.
--   Prelude: results of Go calls (a value, an error or a panic), bounds-checked indexing and
--     slicing, big-endian numbers, lists over native numbers, and the shared lemmas.
--
-- How code becomes definitions: a method that changes its receiver is a function from the old
-- record to the new one; a mutex makes it one step, and a call that gives its lock back in between
-- takes as an argument what the others do there, or the state that it saw before. An index or slice
-- out of range is `panic`.
-- Machine integers are natural numbers with the wrap-around written out: sequence numbers count
-- modulo 2 ^ 64, slice bounds read from a frame modulo 2 ^ 32. Parsing has no loop, and the loop
-- of `Get` runs over the size of the pool. The loop of `writeWithGrace` runs on fuel: one round for
-- each 100 milliseconds of the grace window and two for its ends, which is enough since each round
-- that does not end it waits 100 milliseconds. That of `writeWithTransportGrace` has one round for
-- each 200 milliseconds of the window, one for each 200 milliseconds up to the time from which
-- other goroutines leave the suspension of the channel alone, and four more. A goroutine that waits
-- is a phase of its record, and the choice of a `select` is an argument. A write on a link that
-- fails is taken not to have delivered its frame.
--
-- What is a parameter: compress/gzip, encoding/json and google/uuid in Message.Packages, with
-- what the code relies on (a round trip, and no panic) as named fields; whether the n-th write on
-- a link succeeds, in Channel; the random start of the search in PortPool; encoding/json in
-- Zone.Rules.Ports; the cipher XChaCha20-Poly1305 in Zone.Cipher; the Noise handshake and its
-- ciphers in Secure, with the XX pattern and in-order decryption as their documented behaviour;
-- SHA-256 and the random source in Server; the package net in Access and, for the texts of
-- addresses, in Relay.
--
-- Not modelled: sockets, timers, goroutines and HTTP plumbing; the server's front
-- and read loops, the client, the copying of the relay, the web gateway, the direct transports, the
-- client of a zone and the command line.
pub mod Prelude
pub mod Message
pub mod Channel
pub mod Link
pub mod PortPool
pub mod Relay
pub mod Secure
pub mod Server
pub mod Access
pub mod Zone
