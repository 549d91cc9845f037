-- ===== src/Lib.antt =====
-- The plugin server: clients ask it to run a protoc plugin, to list plugins, and to create, update
-- and delete them. A request passes the API handlers (internal/api), the core service
-- (internal/core), a worker pool that bounds the work (internal/core/pool.go), and the registry of
-- plugins (internal/adapters/registry). Audit entries go to a worker that stores them in batches
-- (internal/adapters/audit). Rate and concurrency limits (internal/ratelimiter), credentials
-- (internal/auth) and the licence (internal/license) decide what is let through.
--
-- Which module models what:
--   Core.Errors, Core.Domain    internal/core/domain.go, context.go: types, sentinels; errorCode
--   Core.Names                  the plugin name and its validation in internal/core/core.go
--   Core.Service                the operations of internal/core/core.go
--   Api.Status, Api.UpdateMask  classify and updateMaskFields of internal/api/api.go
--   RateLimit.Concurrency       internal/ratelimiter/concurrency.go
--   Pool.Config, Limiter, Retry NewWorkerPool's defaults, genLimiter, poolPlugin.Generate
--                               (internal/core/pool.go)
--   Audit.Worker                internal/adapters/audit/worker.go
--   RateLimit.Limiter           internal/ratelimiter/ratelimiter.go
--   Sdk.Retry                   sdk/retry.go
--   Api.Interceptor             internal/api/auth_interceptor.go
--   Auth.Tokens, Auth.Static    internal/config/auth.go, internal/auth
--   Audit.Partitions            internal/adapters/audit/partitions.go
--   Registry.Cache              internal/adapters/registry/cache.go
--   Registry.Query, Config, Backend, Plugins, Binaries
--                               internal/adapters/registry/registry.go
--   Pool.Jobs                   internal/core/pool.go, the job queue
--   Api.Plugins                 internal/api/plugins_list.go, pagetoken.go, api.go
--   Config.Ports, Validate      internal/config/config.go, validate_more.go
--   Config.Diagnostics          internal/config/diagnostics.go
--   Paths, Archive              internal/plugarchive/plugarchive.go over package path/filepath
--   License.Claims, Gate        internal/license, the claims of internal/core/domain.go
--   Config.Leaves, Schema, Document
--                               internal/config/fields.go, diagnostics.go: the settings and the keys
--   Config.Env, Merge, Load     internal/config/env.go, alias.go, config.go
--   Storage                     internal/adapters/storage/s3.go
--   Cli.Build, Builds           cmd/easyp-svc/build.go
--   Cli.Plugins, Transfer       cmd/easyp-svc/register.go, push.go, pack.go, progress.go
--   Cli.Print                   cmd/easyp-svc/config.go
--   Startup                     cmd/easyp-svc/start.go, internal/config/preflight.go
--   Audit.Store                 internal/adapters/audit/audit.go
--   RateLimit.Caller            internal/grpchelper/server.go, internal/ratelimiter/extractor.go, config.go
--
-- Correspondence: a Go function f that reads and writes a struct is a function from the struct and
-- its arguments to the result and the struct afterwards. An error is the list of the sentinels that
-- its chain wraps (Core.Errors), and a call that may fail returns a Result. Goroutines that share
-- state are step relations: one step is one operation on the shared state, and a theorem on Reach
-- holds for every interleaving. Strings are lists of character codes, bytes where
-- the text is ASCII; int and time.Duration are the two-sided integers of Common.Int where a sign matters.
--
-- The registry of Registry.Plugins and Registry.Binaries is one of the service's registries, and
-- Registry.Plugins.Listed puts it behind Core.Service. Its queries are kept as clauses with placeholder numbers
-- and arguments, and its database, storage and disk are the record Registry.Backend.Backend, whose laws
-- (Table, WrittenTable, JsonLaws) say what is relied on. Config.Validate accepts the settings that
-- Pool.Config and the other workers run on.
--
-- Collaborators that are not in these files are parameters: the registry of the service (Core.Domain's
-- Registry, with the laws that a theorem needs as a record), the semaphore of golang.org/x/sync
-- (Pool.Limiter's Semaphore), the token bucket of golang.org/x/time (RateLimit.Limiter), the
-- database of Audit.Partitions with what its catalogue promises, sha256, encoding/json, base64 and
-- the paseto library, and whatever storage, disk, plugins and clocks answer. Package path/filepath is
-- written out in Paths, as its documentation states it.
--
-- Fuel: Core.Service.Paging.walk and Api.Plugins.Tokens.walk_tokens take as many rounds as there are
-- rows, and one more, and
-- Registry.Cache.evict as many as there are entries, which their theorems show to be enough;
-- Audit.Partitions.decimal prints a number with as many steps as its value, which is more than its
-- digits. Cli.Build.scale divides a number with as many steps as its value, which is more than it needs.
--
-- Not modelled: flags, wiring and process start, gRPC serving, the database client, telemetry: they move
-- data and decide nothing that the modelled parts rely on. Of the registry, starting a plugin's process
-- and reading its pipes; of the configuration, decoding YAML and the environment, and the renaming of
-- keys by a table that is empty; of the archives and commands, reading a directory tree into an archive,
-- how the disk follows a link that an unpacking has made itself, and what is shown on the terminal.
mod Common
pub mod Core
pub mod Api
pub mod RateLimit
pub mod Pool
pub mod Audit
pub mod Paths
pub mod Archive
pub mod Config
pub mod Registry
pub mod License
pub mod Sdk
pub mod Auth
pub mod Cli
pub mod Storage
pub mod Startup
mod Tests
