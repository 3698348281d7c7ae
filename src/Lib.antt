-- ===== src/Lib.antt =====
-- ZapperMeow runs WhatsApp sessions for many tenants. Two kinds of process share one Postgres and one
-- Redis: workers hold the sessions, API replicas take the tenants' commands. A session runs in exactly
-- one worker, the one that owns its row of session_leases; the row's generation is the fencing token
-- of every command and every frame.
--
-- The parts and how they meet:
--   Base         shared notation: tests, lists, results, membership, texts.
--   Domain       internal/domain: instance states and the table of transitions (Domain.Instance),
--                reasons of a disconnect (Domain.Reason), the trail's vocabulary (Domain.Trail), the
--                errors that clients see (Domain.Errors), the rules on input (Domain.Validate,
--                Domain.Proxy).
--   Store        internal/store: a table is a list of rows, a statement a function on it. Leases and
--                Adoptable hold leases.sql.go, Instances connection.sql.go, Users and Tenants the
--                statements of users.sql.go, tenants.sql.go and instances.sql.go on the tables of
--                Accounts; `find` and `update` are SELECT by the primary key and UPDATE … WHERE.
--                Transaction is begin, a body and commit.
--   Lease        internal/lease/lease.go: the manager of one worker's leases. Lease.Trace runs the
--                statements of any number of workers and of the API in the order they commit; the laws
--                of exclusivity, fencing and adoption are stated over such sequences.
--   Events       internal/events: publisher.go on a model of the keys that Redis holds; Events.Watch
--                joins subscriber.go and the loop of internal/api/ws/ws.go.
--   Wa           internal/wa: the classification of library events, the interface of a session, and the
--                adapter of hypermeow.go around the library (Wa.Adapter).
--   Worker       internal/worker: supervisor.go, session.go and reconcile.go. Worker.State is the
--                state (sessions, leases, instances, trail, Redis), Worker.Sessions a session's life
--                under its lease, Worker.Commands and Worker.Settings the commands, Worker.Losses
--                and Worker.Handler the events, Worker.Runtime the periodic work and the
--                relation `act` of one step, Worker.Interleaved the steps with the halves of a relink
--                apart. The other modules below Worker hold the proofs.
--   Rpc          internal/worker/grpcserver.go (Rpc.Server), internal/api/sessionclient/client.go and
--                the error mapping of internal/domain/services/connection.go (Rpc.Client).
--   Service      internal/domain/services/connection.go: the writes before a command, a tenant's
--                suspension and return; Service.Front and Commands the commands with the wait for an
--                owner, Settings what is forwarded, Status what is told from the tables, Pages the reading
--                of the trail and the sweep of internal/worker/retention.go.
--   Identity     internal/domain/token.go and user.go (Identity.Tokens), internal/domain/services/auth.go
--                (Identity.Login, and Identity.Attempts for logins that overlap) and passwords.go
--                (Identity.Passwords), and the middleware internal/api/middleware/auth.go (Identity.Gate).
--   Admin        internal/domain/services/tenants.go and instances.go, with what a tenant's status does
--                to its sessions (Admin.Projection).
--   Access       internal/domain/apikey.go (Access.ApiKey); internal/store/api_keys.sql.go and
--                internal/domain/services/apikeys.go (Access.Keys the revocation, Access.Issuing the rest);
--                the middlewares auth_apikey.go (Access.Keys), auth_connection.go and ratelimit.go
--                (Access.Connection) of internal/api/middleware, and the access to the events of
--                internal/api/wsbridge.go (Access.Watching). The random bytes, the digest and the
--                limiter are arguments.
--   Config       internal/config/config.go: the secrets and the checks at the start.
--   Api          internal/api/httperr/httperr.go: problem documents.
--   Tests        runs at concrete inputs.
--
-- How the code is read. Go's (T, error) is Result; a text with named values is a data type whose last
-- constructor holds any other text. An instant or a duration is a natural number on the database's
-- clock, and so are the identifiers of instances and workers, which the code only compares. An operation
-- takes the instant at which it runs and a test `down` that says which of its calls to Postgres or Redis
-- fail; a call that fails changes nothing. An operation of the worker is one step: its calls see one
-- instant, and the goroutines it starts are steps of their own (`dial`, `handle`). Where the code takes a
-- mutex per command or a transaction per statement this is the order it enforces. Two operations that
-- hold nothing together are also modelled in parts, with anything in between: the relink of a session
-- (Worker.Interleaved) and the login (Identity.Attempts). Other interleavings inside one operation are not
-- modelled, nor is the loss of a subscription to Redis while a socket is open. A session is a value with the functions of `SessionApi`,
-- which stand for the HyperMeow library and WhatsApp behind it. The wait for an owner
-- (`claim_and_retry`) runs on fuel, one more than two rounds beyond the wait divided by the pause, which is
-- proved to be enough; every other loop is a recursion on a list. Generations, sequence numbers and times are
-- unbounded, where the program has 64 bits that only grow by one; the product of a duration that the
-- configuration's check takes is the one that wraps (Config.is_below_triple). A row of the lease table
-- refers to an instance: the writes before a command refuse one that is not there (Service.prepare), the
-- statement by itself does not see the other table.
--
-- Not modelled: logs and metrics, the encoding of frames and messages, HTTP routing, the handshake of a
-- WebSocket and its first frame, migrations, generated code; hashing and drawing passwords, which are
-- parameters, as are the JWT library, the library of URLs, the reading of addresses and the folding of a
-- text's case; and, so far, the text of a cursor, the bootstrap, the advertised address, and the calls by
-- which hypermeow.go builds and pairs a client.
pub mod Access
pub mod Admin
pub mod Api
mod Base
pub mod Config
pub mod Domain
pub mod Events
pub mod Identity
pub mod Lease
pub mod Rpc
pub mod Service
pub mod Store
mod Tests
pub mod Wa
pub mod Worker
