-- ===== src/Lib.antt =====
-- EdgeGuard: an API gateway (data plane), the control plane that configures it, the sessions of its
-- users, background jobs, and analytics of the gateway's requests. This library models the Go code of
-- these parts and proves what makes them correct.
--
-- The parts, and how they interact. The control plane stores projects, services and routes in
-- Postgres and publishes the enabled routes over HTTP. The gateway takes over a snapshot of them
-- after checking it, or keeps the routes that it has. For a request it resolves the route, has the
-- API key validated by the auth service, asks the rate limiter, which counts in Redis, and forwards
-- the request. The jobs API writes a job to a table and publishes it to RabbitMQ; the worker carries
-- it out, records the result in the table, and tells the broker. The auth service hands out refresh
-- tokens and replaces each of them when it is used, and keeps the API keys of projects. The gateway
-- publishes an event of each request to Kafka; the analytics service stores it with hourly counts in
-- one transaction, and answers queries on the counts, which the worker's reports read as well.
--
-- Base      Go's integers, times, errors, and what the other files share.
-- Text      strings as bytes, with the functions of the package strings that are called.
-- Url       net/url, whose parser is a parameter.
-- Gateway   internal/gateway.
--   Route     domain: Route, Matches, UpstreamPath.
--   Usecase   usecase: ResolveRoute, AuthorizeRoute, CheckRateLimit, RefreshRoutes, and the repository
--             in infrastructure/memory.
--   Handler   delivery/http/v1: proxyRequest with its status codes, headers and event metadata.
--   Limiter   infrastructure/ratelimit: Allow, and the Lua script over an interface of Redis, whose keys
--             expire.
--   Snapshot  infrastructure/controlplane/dto.go: the check of the published routes.
--   AccessEvents  the event of a request, in delivery/http/v1, and the producer in infrastructure/kafka.
-- ControlPlane  internal/controlplane.
--   Domain, Store, Usecase  the constructors, the INSERT statements with the constraints of
--             migrations/, and the use cases.
--   Publish   the answer for the gateway, and what the gateway makes of it.
-- Jobs      internal/platform/jobs, internal/jobs, internal/jobworker.
--   Envelope, Payload  messages and their checks.
--   Table     the rows of background_jobs and the statements on them, one constructor of Statement for
--             each method that updates a row.
--   Submit    the submission of a job, with what other processes do to the table meanwhile.
--   Worker    usecase/process.go, and handleDelivery of infrastructure/rabbitmq/consumer.go.
--     Sender, Report, Cleaner  infrastructure/{webhook,report,postgres}: what the three kinds of job do.
-- Auth      internal/auth.
--   Tokens    refresh tokens: the table, rotation and revocation; Session has Refresh and Logout.
--   ApiKeys   API keys: the table, CreateAPIKey, RevokeAPIKey and ValidateAPIKey; Service generates,
--             parses and matches them.
--   Users     users: the table, Register and Login; AccessTokens has the token service's JWTs.
-- Analytics internal/platform/events, internal/analytics.
--   Event     the check of an event.
--   Store     infrastructure/postgres/gateway_access.go: StoreGatewayAccess on its two tables.
--   Usecase   ProcessGatewayAccess.
--   Consumer  infrastructure/kafka: New and the retries; Delivery has the handling of records and Run.
--   Query     usecase/query_stats.go and infrastructure/postgres/stats.go: the summary; Hourly the list.
--   Http      delivery/http/v1/analytics.go: requests and error answers.
--
-- How state is modelled. A table is a list of rows in the order of insertion, a transaction a
-- function on the table that is all or nothing, and a fault of a database or a broker an argument;
-- a statement with a fault changes nothing. Requests that interleave are sequences of statements or
-- requests between the steps of one operation. What is outside of the repository is a parameter: the
-- URL parser, JSON, hashes, clocks, generators, Redis, the broker.
--
-- Bounds. Integers are unbounded where the code does not come near the limits of int; durations that
-- the gateway computes from published numbers wrap around as in Go. A time is a number of nanoseconds
-- from the year 1 on. The seconds of Retry-After are rounded up exactly, where the code goes through
-- a float64. The fuel of `serve` is the number of deliveries of one message after the first: the number
-- of attempts less one, since the worker does not requeue a job at its last attempt. The fuel of
-- `retry` is one more than the attempts that the consumer is configured to make. Counts of the hourly
-- statistics that would leave the range of BIGINT are an error of the statement, and sums of them that
-- do not fit into int64 an error of the query.
--
-- Not modelled: the reverse proxy, the gateway's clients of other services, the YAML loader, the
-- RabbitMQ publisher, most HTTP decoding, configuration, logging, metrics, tracing, and the demo
-- services.
pub mod Base
pub mod Text
pub mod Url
pub mod Gateway
pub mod ControlPlane
pub mod Jobs
pub mod Auth
pub mod Analytics
