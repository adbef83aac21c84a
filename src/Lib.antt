-- ===== src/Lib.antt =====
-- The verification of felsen_mcp_server_postgres: a server that gives language models guarded
-- access to PostgreSQL. A request carries a bearer token, which authentication maps to a
-- principal; the token is an API key or an access token of the server's own OAuth provider. Its
-- SQL goes through the guard, which accepts it only if every table, function and
-- operation is allowed by the policies of the connection; the store then runs it in a transaction,
-- within limits, and masks the rows it returns.
--
-- The modules and the files of the repository that they model:
-- - Base, Strings: Booleans, lists and Go strings. A string is the list of its code points, as
--   the source walks `[]rune(s)`. The tables of Unicode are the instance argument `Unicode`;
--   Strings/Ascii is one for the tests.
-- - Config: internal/config/config.go. Policy holds `SchemaAllowed`, `DDLAllowed`, `DMLAllowed`;
--   Model the types; Defaults `applyDefaults` with the environment; Check and Validate the checks
--   of `Validate`, and `Load` behind the decoding of the file. `System` is the environment and
--   what is called of Go's library. Switches, Limits, Keys and Start hold the proofs, the last two
--   those that go on to the manager of the keys and the OAuth provider.
-- - Guard: internal/sqlguard. Reason holds the errors, one constructor for each message; Token,
--   Tokenize, Statement, Tables, Relations, Ddl and Validate model sqlguard.go in the order of
--   its data flow; Strip and Script the scripts; Split is parser_nocgo.go. `Validate` and
--   `ValidateScript` take the statement splitter as an argument, since a build with cgo calls a
--   library for it.
-- - Authn: internal/authn/authn.go. `sha256_hex` is an argument; a `map[string]bool` is the list
--   of its keys.
-- - Oauth: internal/oauth/oauth.go. A request is its method, its path and its decoded values;
--   `World` is the time and the random bytes that it finds. Scopes, Register, Authorize, Issue
--   and Server hold the operations up to `ServeHTTP`; Steps says what a request does to the
--   provider, as a relation; Cases, Codes, Calls, Once, Grants, Admitted, Sound, New, Reachable,
--   Redirects, Tokens and Bearers hold the proofs. JSON, base64, HMAC, SHA-256, the URL parser
--   and `time.ParseDuration` are arguments.
-- - Masking: internal/masking/masking.go. Compiling a regular expression is an argument.
-- - App: internal/mcpserver/server.go: whom a call authenticates and which connection it may use;
--   Objects the identifiers of tables and columns; Search `search`; Tools the tools that run SQL;
--   Sources the signed URLs and `/sources`. Access, Found, Permits, Writes, Signed and Shown hold
--   the proofs. JSON, base64, HMAC, the printing of a query and the URL of a result are arguments.
--   `search` and `/sources` see the store as functions that answer; the tools have the database
--   and the history of the driver's calls of each connection.
-- - Store: internal/postgres/store.go and types.go. The driver is an argument that answers each
--   call from the history of the calls so far. Store/Effects says what a history means for the
--   database: whatever runs in a read-write transaction, a query too, takes effect together at
--   its commit; PostgreSQL lets nothing in a read-only one write; and a commit that reports an
--   error makes nothing effective. Query, Change, Run and Describe hold the operations. Each takes
--   the database of its connection, which `find_database` looks up.
--
-- Each operation is a function on explicit state: the database's record with its cache, and the
-- history. Errors are values. A loop over positions recurs on the tokens from its position on,
-- beside the position. `tokenize` and `detectTableRefs` move a varying number of places in a
-- round, so they run on fuel: the length of the text and the number of tokens, which are proved
-- to be enough.
--
-- Not modelled: the MCP protocol, its resources and the rewriting of its tool lists, the text of
-- `fetch`, the decoding of the configuration's file, audit and version, the command; timeouts
-- beyond an error of the driver, the lock on the cache (an operation is one step), the log. Row
-- limits and counts, `int` and `int64` in the source, are natural numbers without overflow. Text
-- that is not valid UTF-8 is not covered.
pub mod Base
pub mod Strings
pub mod Config
pub mod Guard
pub mod Authn
pub mod Masking
pub mod Oauth
pub mod Store
pub mod App
pub mod Tests
