-- ===== src/Lib.antt =====
-- go-kis: a client of the Korea Investment & Securities API. Package kis/ws keeps a realtime
-- WebSocket connection; package kis sends read-only REST requests, which kis/domestic and
-- kis/overseas build.
--
-- One connection (kis/ws/conn.go) is shared by the goroutines of its callers, by a reader that runs
-- until Close (kis/ws/reader.go) and by a pass that restores the subscriptions after each reconnect
-- (kis/ws/reconnect.go). They share the fields of Conn under one mutex; a caller waits on a channel
-- of its own for the verdict that the reader finds in an ACK. The model has one record Conn with the
-- fields that change and with what the connection has done so far: the verdicts that were sent to
-- waiters, the events that were sent to the consumer and the calls of transports, of the dialer, of
-- the approval provider and of OnReconnect, each in order.
--
-- Which file models which part:
--   Text               the functions of strings, bytes, strconv and fmt that the code uses, on texts as
--                      lists of bytes
--   Json               encoding/json on strings and objects: quoting and a reader, for the texts of
--                      requests
--   Ws/Frame           kis/ws/frame.go: parseRealtime, splitFields
--   Ws/Execution       kis/ws/execution.go: parseExecution, parseSide, QtyInt, PriceRat
--   Ws/Errors          kis/ws/errors.go, and the codes that kis/ws/reader.go reads
--   Ws/Message         the texts of the errors of kis/ws
--   Ws/Crypto          kis/ws/crypto.go: material, base64, CBC, PKCS#7
--   Ws/Conn            kis/ws/conn.go: Subscribe, Unsubscribe, Close, and the waiters of
--                      kis/ws/reconnect.go (takePending, forget, failPending, resolve)
--   Ws/Dial            kis/ws/conn.go: Dial
--   Ws/Reader          kis/ws/reader.go: handle, applyAck, publish and the store of material
--   Ws/Reconnect       kis/ws/reader.go: run, readLoop; kis/ws/reconnect.go: dropTransport, redial,
--                      reissue, resubscribe
--   Ws/System          all of them together; Close in its sections
--   Ws/Backoff         kis/ws/backoff.go: BackoffConfig, normalized, delay
--   Ws/Coder           kis/ws/dialer_coder.go: the default dialer and transport
--   Ws/Approval        kis/ws/approval.go: the caching provider
--   Kis/Subscribe      kis/websocket.go: the request envelope and its JSON text, ValidateWSURL
--   Kis/Socket         kis/websocket.go: ConnectWS, Subscribe, Handle
--   Kis/ApprovalKey    kis/auth.go: IssueApprovalKey
--   Kis/Host           kis/client.go: normalizeHost
--   Kis/Transport      kis/client.go: safeTransport, the pinning of requests
--   Kis/Create         kis/client.go: NewClient
--   Kis/Limiter        kis/limiter.go
--   Kis/Response       kis/request.go: what send makes of what http.Client.Do gives
--   Kis/Reads          kis/request.go: supportedReads
--   Kis/Client         kis/request.go, kis/client.go, kis/auth.go: Read, send, token, issueToken
--   Kis/Request        kis/request.go, kis/auth.go, kis/hashkey.go: the headers and the body of a
--                      request
--   Kis/Message        kis/request.go, kis/client.go: the texts of the errors of a read
--   Kis/Mode           kis/types.go
--   Kis/Domestic       kis/domestic/domestic.go
--   Kis/Overseas       kis/overseas/overseas.go
--   Kis/Supported      the four operations of these two together
--   Examples           examples/ws_executions/main.go, examples/balance/main.go
--
-- The REST client keeps a limiter and a token; each of its requests waits for the limiter and then
-- goes to http.Client.Do. The model keeps the requests that were handed to it in order.
--
-- A request on a connection is cut at the points where it waits: `begin` is its critical section,
-- `write` the write on the socket, `finish` what it does with its outcome. The reader is a machine
-- whose program counter says where in `run` it stands; a move is one step with the answer of the
-- interface that it calls. Close is cut in the same way: its critical section, the writes of its
-- frames, and its end. A history of a connection is a list of such sections in any order. Two
-- functions have fuel: the reader of JSON texts, which takes a unit for each value and each list of
-- members, each of which has a byte of the text at least, so that the length of the text is enough;
-- and the printer of numbers, with 20 digits, enough for 64 bits. Every other function is recursive
-- on a text, on a count of blocks, on a list of subscriptions or on the list of moves.
--
-- Times of the REST client are nanoseconds as natural numbers; the lifetime of a token is computed
-- in 64 bits as in the source.
--
-- Transports are numbers, and what the interfaces answer is an input. The decoding of an ACK by
-- encoding/json, the AES block function, net/url, net/http's Clone, the case mappings of package
-- strings and SetString of math/big are parameters. The floating-point operations behind a delay
-- are a record of operations with the laws that IEEE 754 and package math give them; durations up
-- to 2 ^ 53 nanoseconds, some 104 days, are exact as floating-point numbers, and longer ones are
-- rounded. The server's side of the encryption, which the source does not have, is written out in
-- Ws/Crypto/Blocks, Ws/Crypto/RoundTrip and Ws/Crypto/Base64/Encoding. An error of an interface
-- that wraps none of the package's values is one constructor, `external`. Counters have no upper
-- bound here.
-- The log of a connection keeps a frame as a value, with the error that its Write gave; its text is
-- what json.Marshal makes of it, and a server of the default transport reads that text where the
-- Write succeeded.
--
-- Not modelled: contexts beyond the fact that one has ended, the wait of Close for the reader, the
-- texts of errors other than those of a read and of a connection, the response records of
-- kis/domestic and kis/overseas (they are left to encoding/json, and no code of the repository
-- reads them but an example that prints one), signals and process exits of the examples,
-- kis/ws/doc.go, which has no code, and internal/testutil, which serves tests only.
pub mod Prelude
pub mod Text
pub mod Ws
pub mod Examples
pub mod Json
pub mod Kis
pub mod Tests
