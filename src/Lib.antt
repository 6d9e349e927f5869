-- ===== src/Lib.antt =====
-- A model of the credential gateway: proxies that log in to a MySQL, Redis, PostgreSQL or Oracle
-- server with configured credentials, so that their clients need none.
--
-- The parts. main.go loads the configuration (internal/config), which has to be valid and whose
-- file nobody else may read, and starts one listener for each service (internal/gateway). A
-- listener accepts connections; its handler dials the upstream, logs in with the configured
-- credentials, answers the client's own login itself, and then copies bytes both ways. The admin
-- server (internal/admin) shows the configuration and writes it.
--
-- The files.
--   Common: shared names, byte strings, machine words, bit operations, text.
--   Std: what the gateway uses of Go's library and of its digests, executable: MD5, SHA-1,
--     SHA-256, HMAC, base64, decimal numbers.
--   Net: what a handler sees. Exit is how a Go call ends (a value, an error, a panic), Exit/Action
--     a call that changes a state, Exit/Ensures rules for what it leaves behind, Exit/Fuel rules
--     for loops that run on fuel; Conn is one
--     connection, World the two connections of a handler, Reader a bufio.Reader before a
--     connection, Pipe is `pipe` of internal/gateway/pipe.go, and Inject has the rules for what a
--     handler may send to the upstream.
--   Mysql: internal/gateway/mysql.go. Packet (mysqlReadPacket, mysqlWritePacket), Handshake
--     (mysqlParseNonce, mysqlClearSSL), Response (mysqlParseDatabase, mysqlBuildResponse,
--     mysqlScramble), Switch (mysqlParseAuthSwitchPlugin, mysqlBuildErrPacket), Handle (handle).
--   Redis: internal/gateway/redis.go. Auth (discardClientAuth, consumeArrayAuth,
--     consumeInlineAuth), Handle (handle).
--   Postgres: internal/gateway/postgres.go. Message (pgReadStartup, pgWriteStartup,
--     pgReadMessage, pgWriteMessage), Startup (pgBuildStartup, pgParseParams, the password and SASL
--     messages), Replies (pgMD5Password, pgParseError), Scram (pgParseSCRAMServerFirst, pgPBKDF2,
--     pgHMAC and the texts of doSCRAM; Scram/Exchange is doSCRAM itself), Handle (handle,
--     forwardStartup; Handle/Session says what the gateway sends to a server, Handle/Questions and
--     Handle/Script what the peers of a login send).
--   Oracle: internal/gateway/oracle.go. Tns (tnsRead, tnsWrite), Ttc (the bodies of the packets),
--     Handle (handle, doAuth; Handle/Session says what the gateway sends to a listener).
--   Http: internal/gateway/http.go, the director of the reverse proxy.
--   Gateway: internal/gateway/gateway.go (New, Start, Stop) over the system's sockets, with what
--     Start and Stop of the proxies do to these. Gateway/Connections has the accept loops of the
--     proxies, safeHandle (internal/gateway/safehandle.go), and acceptConn and close of
--     internal/gateway/pipe.go, over any number of connections at once.
--   Config: internal/config. Types, Validate, Acl (checkPermissions, aclGroupClassAccess), Load
--     (Load, Parse).
--   Command: main.go (resolveLogLevel, main), over Config and Gateway.
--   Admin: internal/admin/server.go. Server has the routes, handleIndex, handleSave, writeConfig
--     and sameOrigin; it uses Parse of Config. Command is cmd/credential-gateway-admin/main.go.
--   Tests: the theorems at concrete inputs.
--
-- How state is modelled. A connection is what its peer still sends, how many bytes it takes
-- before writes fail, how much one Read hands over, and all that was written to it; so every
-- partial read and every failed write is some input of the model. The pipe runs by a schedule of
-- rounds, each with a side and an amount, so that every interleaving of the two copies is some
-- schedule; when a copy ends, both do, since both connections are closed.
-- Error values keep their kind, not their text.
--
-- Fuel. The loops of bufio.Reader run on fuel: as many fills as bytes asked for in Peek, twice the
-- bytes to come and two more in ReadString, and twice the bytes asked for and two more in
-- ReadFull. The loops over strings that end in NUL take one round for each byte. Running out would
-- be the error `out_of_fuel`. The loops over the messages of an upstream (the login of PostgreSQL
-- and its startup, CONNECT of Oracle) get one round more than the upstream sends bytes, and take a
-- message of several bytes in every round. The two loops of PBKDF2 are counted.
--
-- Parameters. `quote` is the verb %q of fmt.Sprintf, `decode` the YAML decoder, `max_alloc` the
-- greatest length that make gives, `random` what rand.Read gives, `to_upper` and `to_lower` the
-- functions of strings, which need Unicode's tables, `url_host` and `url_parses` what url.Parse
-- makes of a text, `canonical` textproto.CanonicalMIMEHeaderKey, `original` the director of
-- httputil.NewSingleHostReverseProxy, `stop_order` the order in which goroutines run; the calls of
-- the operating system are fields of records, and so is which addresses clash. In the admin server a request is what net/http hands
-- over, its form parsed.
--
-- Concurrency. Handlers share the counter of connections and the log, and nothing else: a step of
-- Gateway/Connections is a whole accept, the start of a handler up to its accept line, or a
-- handler's run from there, in any order; an accept loop may end at any time.
--
-- Not modelled: the rest of the HTTP proxy, which configures a library, and what that library does
-- to a request behind the director; the redirects of ServeMux for paths that are not clean; the template of the admin
-- page; log lines but those that tell of a connection, and the times in these.
pub mod Common
pub mod Net
pub mod Mysql
pub mod Redis
pub mod Postgres
pub mod Oracle
pub mod Config
pub mod Http
pub mod Gateway
pub mod Command
pub mod Admin
pub mod Std
pub mod Tests
