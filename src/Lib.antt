-- ===== src/Lib.antt =====
-- dolly: Go packages for building web services. This library models the packages with logic of
-- their own and proves what makes them correct.
--
-- The parts and how they interact. A client (xhttp/retriable) walks over its hosts, retries a
-- request on each under a policy, and collects the failures in a `ManyError` (xhttp/httperror); it
-- classifies error texts with the searches of algorithms/slices. A server reads the caller's
-- identity into the request's context (xhttp/identity), and the handlers of xhttp/authz map it to a
-- role and decide by a tree of path segments. The server (rest) chains these handlers with a
-- capture of the response, a log and metrics (xhttp) and a test of its readiness (rest/ready) round
-- a router, and answers errors by xhttp/marshal, which the client reads back. Beside them stand a
-- scheduler of periodic tasks (tasks) and a throttle (algorithms/throttle), whose callers run at
-- once. A certificate authority (xpki/authority) loads profiles and issuers, and an issuer signs a
-- certificate request (xpki/csr) under a profile; its key comes from a provider that
-- xpki/cryptoprov finds by the manufacturer in the key's URI.
--
-- The modules, and their sources by paths from the repository's root:
-- - Prelude: numbers, tests, lists, texts as lists of byte values, and maps as association lists.
-- - GoText: what the packages use of Go's `strings` and `bytes`, and Numbers what they use of
--   `strconv`.
-- - Slices: algorithms/slices/slices.go. Equal has the comparisons, Search the searches and `Nvl`
--   functions, Mapped the functions that copy.
-- - Armor: xpki/armor/armor.go. Decoder has `Decode`, Base64 what it uses of encoding/base64, Crc
--   the checksum.
-- - Throttle: algorithms/throttle/throttle.go, `Trigger`, `Next`, `Stop` and the timer as steps of
--   a system of callers. A step is what a goroutine does while it holds the lock, so a sequence of
--   steps is an interleaving.
-- - Http: what the packages use of net/http: header maps and the server's response writer.
-- - HttpError: xhttp/httperror, `Error` and `ManyError` of errors.go; Constructors has the `With`
--   functions and Answers `WriteHTTPResponse`.
-- - Marshal: xhttp/marshal, `WriteJSON` and `DecodeBody`; Written is about what a server sends.
-- - Retriable: xhttp/retriable/retriable.go and request.go. Verdicts is about `ShouldRetry`,
--   Attempts about the loop of `Do`. Execute has `executeRequest`, which Hosts is about. Client has
--   the client's options and headers and `doHTTP`, which Headers, Sent, Walked and Propagated are about;
--   Request has `Request`, `Head` and `DecodeResponse`, which Answered is about.
-- - Xhttp: xhttp/response_capture.go, request_metrics.go, request_logger.go and xhttp.go. Captured
--   and Metered are about the capture and the metrics.
-- - Rest: rest/server.go, config.go, router.go and rest/ready. Address has the URLs, Mux `NewMux`,
--   which Guarded and Refused are about, and Lifecycle `StartHTTP`, its goroutine and `StopHTTP` as
--   steps of one system.
-- - Netutil: netutil/localip.go, the test for a private address, which Blocks is about.
-- - Identity: xhttp/identity/identity.go and ctx.go, the context handler and the interceptor. Realip is
--   realip.go, which ClientAddress is about.
-- - Authz: xhttp/authz/authz.go. Tree has `walkPath` and `clone`, Provider the configuration and
--   `isAllowed`, Provider/Config `New`, Provider/Handler `NewHandler`, `ServeHTTP` and the gRPC
--   interceptor. Provider/Rules states what the calls that configure a provider specify, Decisions
--   and Served are about `isAllowed` and the handlers.
-- - Tasks: tasks/task.go and tasks/scheduler.go. Clock has the civil time, Task the tasks, Format
--   `parseTaskFormat`, Scheduler the list of tasks and the life of the ticker loop.
-- - Ca: xpki/authority and xpki/csr. Std has what they call of Go's standard library, a
--   parameter; Csr csr.go, Csr/Names about the subject, Csr/Arcs the texts of identifiers in
--   types.go; Profile the profiles and Config the configuration of config.go, Config/Compiled and
--   Valid about `Validate` and Config/Loaded about `LoadConfig`, Profile/Roles about `IsAllowed`;
--   Authority authority.go, Found about its lookups; Sign `CreateIssuer` and `Sign` of issuer.go,
--   Sign/Fill `fillTemplate` and `addPolicies` of extensions.go, Inverted, Fields, Names, Allowed,
--   Copied and Policies about `Sign`; Issued puts them together.
-- - Cryptoprov: xpki/cryptoprov, `Crypto` of provider.go and the registry of loader.go, which
--   Registry and Loaded are about; Uri has the parsers of uri.go and `LoadPrivateKey` of utils.go,
--   which Keys is about.
-- - Xlog: xlog/logmap.go. Levels is about the levels' texts, Settings about the configuration text,
--   Loggers about the operations on the loggers of a repository.
--
-- In Ca and Cryptoprov a result is a value, an error with its text, or a panic. Maps are walked in
-- their lists' order, a pointer to a profile is the profile's name, a time is in nanoseconds with 0
-- for the zero time, durations are not negative, and an int is its 64-bit pattern. The clock and
-- the random bytes of `Sign` are arguments.
--
-- Choices elsewhere. A panic, and an index out of range, is `none`. A map is an association list
-- with one entry for a key; where a map is walked, the list has the order of the walk. A clock is
-- read once in a call, and the reading is an argument; times are nanoseconds since 1970 in UTC, and
-- an int64 product is wrapped as in `Duration`. Case folding and white space are those of ASCII.
-- What net/http returns for an attempt, and what a role or identity mapper returns, are arguments
-- of the definitions. The loop of `Do` runs on fuel, one unit for a round: with the default policy
-- eleven are enough. `Decode` runs on one unit for a try, and one more than the input has bytes is
-- enough. The other loops are structural.
--
-- Not modelled: logs, error texts built only for people, locks as such, reflection calls, the text
-- forms of durations in xpki/csr, and the packages that only call the system or a library (audit,
-- cmd, ctl, fileutil, the rest of netutil, rest/tlsconfig, and of xpki certutil, crypto11, csrprov,
-- gpg, oid and the drivers of cryptoprov). Of xpki/authority the reading of files and keys, key
-- hashes, and what follows the template in `Sign`: `x509.CreateCertificate` and the parsing of its
-- result; where a profile allows an extension such as that of the extended key usage, it overrides
-- the template's field there. The package metrics is a clone of another project's library. What a
-- handler does to its writer is the list of its calls.
pub mod Prelude
pub mod GoText
pub mod Slices
pub mod Throttle
pub mod Xlog
pub mod Http
pub mod HttpError
pub mod Marshal
pub mod Netutil
pub mod Identity
pub mod Retriable
pub mod Tasks
pub mod Armor
pub mod Authz
pub mod Xhttp
pub mod Rest
pub mod Ca
pub mod Cryptoprov
