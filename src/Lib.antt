-- ===== src/Lib.antt =====
-- Verification of boot-backend-go-clean, a Go web service with registration, login, refreshable
-- sessions and user management in layers: HTTP middlewares and controllers, use cases, domain, and
-- infrastructure.
--
-- How the parts interact. A request passes the middlewares of internal/interfaces/http/middleware
-- (rate limit, authentication, self check, error handler) to a controller of
-- internal/interfaces/http/controller, which binds the body, calls a use case of internal/usecase and
-- turns its error into a status and a body (internal/domain/entity/response). The use cases work on
-- the interfaces of internal/domain, which internal/infrastructure implements: tokens and their
-- blacklist in auth, users and transactions over GORM in persistence.
--
-- Which file models which part:
--   Common          names of the libraries, Boolean tests, signed and 64-bit integers, text
--   Effect          a Go function that may fail or panic and acts on shared state: `Action`
--   GoMap           a Go map, and the loop that deletes entries from it
--   Errors          internal/domain/errors/errors.go: AppError, the package variables, errors.Is/As
--   Entity          internal/domain/entity/user.go, auth.go, token.go: the structs
--   Validation      User.Validate and isValidEmail of internal/domain/entity/user.go
--   Blacklist       internal/infrastructure/auth/blacklist.go; Unordered is the map as a quotient
--   World           the clock, the blacklist and the database that one server shares
--   Jwt             internal/infrastructure/auth/jwt_authenticator.go
--   Repository      the interfaces of internal/domain/repository and internal/domain/gateway
--   AuthUseCase     internal/usecase/auth_usecase.go: Register, Login, RefreshToken, Logout
--   UserUseCase     internal/usecase/user_usecase.go
--   Sessions        a refresh token over several requests: the use case on the authenticator
--   Response        internal/domain/entity/response/response.go
--   Http            what handlers see of gin, and strconv.ParseInt
--   RateLimit       internal/interfaces/http/middleware/limit_middleware.go, without the reply
--   Middleware      the other files of that directory, and
--                   internal/interfaces/http/utils/param_extractor.go
--   Controller      auth_controller.go and user_controller.go, with the use cases filled in
--   Persistence     internal/infrastructure/persistence, its models, and pkg/utils/timeutil
--   Snowflake       pkg/utils/snowflake/snowflake.go
--   Config          pkg/configs/config.go
--   Infra           internal/interfaces/http/controller/infra_controller.go
--   Logger          pkg/logger: levels, configuration, global instance, context, zap_logger.go,
--                   slog_logger.go and zerolog_logger.go
--   Banner          pkg/banner/banner.go and the variables of pkg/version
--   Database        pkg/database: the configuration and the two drivers
--   Server          internal/app/server/app.go and cmd/main.go: Lifecycle is Run and shutdown, Messages
--                   the writer of gin's messages, Application the start and the composition, Engine
--                   the chain of handlers
--   Route           internal/interfaces/http/route: the middlewares in front of each handler
--   Moderation      internal/infrastructure/moderation/detector.go, pkg/utils/image_utils.go
--   Examples        runs at concrete inputs, with small functions for what is a parameter
--
-- How state and operations correspond to the code. An operation has the name of its Go function in
-- snake case. State that a mutex guards is a record, and an operation under the lock is one function
-- on it. An operation that reads the clock takes the instants it reads, or reads them from `World`.
-- A result `(value, error)` is an `Outcome`; a panic is one too, and the state survives both. A
-- pointer that the code writes through (Validate, Create) is a result. Instants and durations are
-- integers in nanoseconds; their addition is not wrapped, the product of hours and page arithmetic
-- is. Strings of clients are lists of code points; the length that Validate measures counts their
-- UTF-8 bytes.
--
-- Code that is not of this repository is a parameter: the JWT library (`Jwt.Library`, with its
-- documented behaviour in `Jwt.Laws.IsFaithful`), GORM (`Persistence.Gorm`), bcrypt
-- (`Repository.Bcrypt`), the Snowflake generator, the database ping, and gin's binding of a body,
-- whose result a controller is given, zap, zerolog and go-swd. `Examples` fills them with small
-- functions.
--
-- The server runs as two goroutines that share a channel of capacity one. `Server.Lifecycle.step`
-- makes one move of either, or of the signal, the clients and the deadline; an accepted connection
-- stays open for further requests, also while the server shuts down or has failed; `Reach` is any
-- interleaving of them. ListenAndServe, Shutdown and the channel are those of Go's standard library.
-- Around a request, `Server.Engine.serve` puts the handlers in the order in which NewApplication and
-- Setup register them; gin.Recovery, gin-contrib/timeout and gin-contrib/cors are parameters with
-- their documented behaviour as hypotheses. A handler that stands in front has its own state beside
-- that of the handlers behind it.
--
-- Bounds and fuel. Two definitions count down a fuel. The rounding of an integer to a float64 doubles
-- its unit until the number has 53 bits: its fuel of 12 covers every number below 2^64. The verb %d
-- takes off a digit at a time: its fuel of 20 covers the same numbers.
--
-- What is not modelled: the text that the loggers write, the matching of paths, AutoMigrate, the
-- health check command, scripts and test doubles. Requests of one server interleave only at the
-- steps that a lock makes, and a use case runs without another request between its steps. The
-- goroutine of gin-contrib/timeout, and what a handler does after its time has run out, are left to
-- that parameter.
pub mod Common
pub mod Errors
pub mod Effect
pub mod Entity
pub mod Validation
pub mod GoMap
pub mod Blacklist
pub mod World
pub mod Jwt
pub mod Repository
pub mod AuthUseCase
pub mod Banner
pub mod UserUseCase
pub mod Sessions
pub mod Response
pub mod Http
pub mod RateLimit
pub mod Middleware
pub mod Controller
pub mod Persistence
pub mod Snowflake
pub mod Config
pub mod Infra
pub mod Logger
pub mod Route
pub mod Moderation
pub mod Examples
pub mod Server
pub mod Database
