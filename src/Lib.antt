-- ===== src/Lib.antt =====
-- The request path of an AI gateway: clients send chat requests in OpenAI's format with a key, the
-- gateway checks the key, the model policy, the rate limit and the token quota, resolves the model to
-- a target with a healthy circuit, and forwards the request to 9router, trying the fallback targets
-- in turn. The management API changes keys, policies, aliases and proxy profiles in the same stores,
-- for requests with the administrator's token.
--
-- The files and what they model:
--   Auth          internal/auth/auth.go: keys, the in-memory key store, GenerateAPIKey and the decision
--                 of AuthMiddleware.
--   Policy        internal/policy/engine.go: SetGlobalDeny, EvaluateModel and EvaluateProvider.
--   Limiter       internal/limiter/limiter.go: Allow and AllowRPS over one map of timestamps.
--   Quota         internal/quota/quota.go: Allow and Record.
--   Routing       internal/routing: Circuit is the breaker of circuit.go, Engine the aliases and
--                 Resolve of engine.go.
--   Audit         internal/audit/audit.go: Log with redaction and the cap on events.
--   Telemetry     internal/telemetry/metrics.go: the observations and the middleware.
--   Ninerouter    internal/ninerouter/client.go: the requests of the adapter and what it makes of the
--                 answers.
--   Dataplane     internal/api/dataplane.go: State the handler's fields, Forward the loop over the
--                 targets, Chat the handler ChatCompletions, Models the handler ListModels.
--   Proxy         internal/proxy: the store of profile.go, BuildTransport and CheckHealth of transport.go.
--   Management    internal/api/management.go: State the handler's fields, Proxies, Keys and Settings the
--                 handlers, Operations all of them as one function. Outcomes says which changes an
--                 operation may make, and Refinement that the handlers make no others.
--   Router        internal/api/router.go as cmd/proxygateway-api/main.go wires it: State the stores that
--                 both handlers share, Wrapping the middleware, Table the patterns, Serving the answer
--                 to a request, Start the stores that main makes and the answers to many requests, one
--                 after the other.
--   Migrator      internal/store/migrator.go: the migration files and the run that applies them, with
--                 the driver of the database as a parameter.
--   Tui           internal/tui: Form is form.go; State, Rows, Requests, Actions and Update are the model of
--                 app.go, what its keys do, and the requests that it sends to the management API.
--   Middleware    internal/api/middleware.go and adminauth.go: request identifiers, recovery, the
--                 cross-origin answers and the administrator's token.
--   Config        internal/config/config.go: Load and Validate.
--   Health        internal/health/health.go: the liveness and readiness handlers.
--   Http          what the handlers use of net/http and encoding/json.
--   Base          shared types and lemmas; Base/Text, Base/Utf8 and Base/Memory hold what is used of Go.
-- Files below a part hold its theorems, and Examples concrete runs of them.
--
-- A store is the state that its lock protects, and an operation is a function from the state to the
-- new state and the result; since every operation holds the lock, runs of them are sequences. Times
-- are nanoseconds as natural numbers, read from arguments. Go's int and int64 are integers with the
-- wrap-around written out where a result could leave 64 bits. Maps are association lists without
-- order. Text is a list of bytes, and case folding works on ASCII letters. SHA-256, random bytes, the
-- clock, JSON decoding and the HTTP transport are arguments of the definitions. All loops run over
-- lists and are structural; the one use of fuel is the printing of numbers, where a number has fewer
-- digits than the fuel.
--
-- A panic is a value: `none`, or a flag of the response that the recovery middleware reads. Modelled
-- are those of an index out of range, of `make` with a capacity beyond the address space of 64-bit
-- Linux on amd64 (Base/Memory), and of a metric's label that is not valid UTF-8 (Base/Utf8), which
-- concerns the method and the path of a request: the other labels are fixed, made of digits, or
-- decoded from JSON, which leaves valid UTF-8 only. That an allocation finds no memory ends the
-- process, and is not modelled. Of the driver of the database, the migrations rely on the laws that
-- Migrator/Applying names; the statements of the migration files are assumed to leave the tracker
-- table alone.
--
-- Not modelled: the database and cache clients of internal/store, which only call drivers; the start
-- and the shutdown of the commands; what the terminal interface draws, and how it decodes what it fetches; logging; the
-- rendering of metrics by Prometheus; how ServeMux cuts a path into segments and redirects paths that
-- are not clean; the pools and timeouts of an HTTP transport.
pub mod Base
pub mod Auth
pub mod Policy
pub mod Limiter
pub mod Quota
pub mod Routing
pub mod Audit
pub mod Http
pub mod Telemetry
pub mod Ninerouter
pub mod Config
pub mod Proxy
pub mod Migrator
pub mod Dataplane
pub mod Management
pub mod Router
pub mod Tui
pub mod Middleware
pub mod Health
