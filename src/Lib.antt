-- ===== src/Lib.antt =====
-- Benzene for Go: a message-handler library whose pipeline is the same behind every transport.
--
-- A transport's binding builds an invocation (topic, headers, request) and runs a pipeline of
-- middlewares on it; the router, the last of them, picks a handler from the registry by topic and
-- version, and leaves the handler's result on the invocation, whose status the binding encodes. The
-- other middlewares wrap that call: idempotency, retry, fallback, bulkhead. Apart from the
-- pipeline, a saga runs actions with compensations, and a mesh collector keeps what services report:
-- middlewares trace each invocation and record its failures, which an exporter sends in batches.
--
-- The files and the code they are about:
--   Topic, Status       topic.go, status.go: message addresses, and the status vocabulary
--   Wire                wire/envelope.go, wire/problem.go: the documents on the wire
--   Result              result.go: a handler's outcome, its constructors, its erased view
--   HttpStatus          httpstatus/mapping.go: `ToHTTP` is to_http, `FromHTTP` is from_http
--   GrpcStatus          grpcstatus/mapping.go: `ToGRPC` is to_grpc, `FromGRPC` is from_grpc
--   Registry            registry.go: `Register` is register, `lookup` is select
--   Pipeline            context.go, middleware.go: `Run` is run, `runFrom` is run_from
--   Router              router.go, and `ResolveVersion` of wire/metadata.go
--   Scope               scope.go: the container's registrations, and resolution in one scope
--   Idempotency         idempotency/: the middleware, and the in-memory store with its clock
--   Resilience          resilience/: Retry, Fallback, Bulkhead and Timeout are retry.go,
--                       fallback.go, bulkhead.go and timeout.go
--   Envelope            envelope/: `dispatch` is dispatch_message, `ToResult` is to_result;
--                       Settling is settlement.go
--   InProcess           inprocess/inprocess.go, and `CallFailure` of client/failure.go
--   ResponseEvents      responseevents/: `Middleware` is events_middleware
--   Client              client/retry.go and client/correlation.go: `WithRetry` is with_retry
--   Metadata            `ResolveMetadataTopic` of wire/metadata.go
--   Aws                 Sqs is awssqs/sqs.go and consumer.go, Kinesis is awskinesis/kinesis.go,
--                       Dynamo is awsdynamodb/dynamodb.go: `Handler` is handle_batch,
--                       handle_stream and handle_changes; Streams is the loop that the last two
--                       have in common
--   HealthCheck         healthcheck/healthcheck.go: `Run` is run_checks
--   Cache               cache/cache.go and cache/store.go: `GetOrLoad` is get_or_load
--   Cors                cors/cors.go: `Middleware` is answer
--   Mesh                mesh/: Trace is trace.go, span.go and clienttrace.go, Issues and Exporter
--                       are issues.go, Push is push.go, and Observing has the two middlewares
--   MeshCollector       meshd/store.go: State is its data and `newRegistration`, Spans is
--                       `recordSpan`, Edges is `register`, Ingest is `heartbeat` and `addEvents`,
--                       Merging is `recordDriftIssue` and `addIssues`, and Views has what
--                       queries read: `fleet` is query_fleet, `trace` is query_trace
--   Saga                saga/: Steps is step.go and context.go, Engine and Retries are saga.go;
--                       Courses tells a run from the actions of its steps
-- Prelude, Maps and Flow hold what they share: Boolean tests, maps as association lists, and Go
-- calls that write a state and may panic. Tests holds runs at concrete inputs.
--
-- A value of type `any` is an element of a type V, and `none` is nil. What a middleware may write
-- is the invocation and a world W, in which stores, clocks and services live; handlers, factories
-- and next steps are arbitrary functions on it, which may panic. Go maps are association lists, so
-- a loop over a map has the order of the list. Case folding, quoting, some sorting, JSON and
-- float64 are parameters, as are sleeping, jitter and random ids. Callers of a bulkhead are
-- interleaved step by step, and so are those of the trace exporter with its goroutine, one channel
-- operation or one send at a time; the goroutines of one saga stage, and the consumers of one
-- fan-out, run in the order of the list.
--
-- Loops need no fuel: the retry loops recurse on the retries that are left, a saga on its stages
-- and on the attempts that are left. Integers are natural numbers, with wrap-around where a value
-- comes from outside: the counts of issues and of their errors are the 64 bits of an `int64`
-- (Prelude.Words). What the code itself only counts up by one is not bounded. The growth of the
-- retry delay has the bound 2^63 - 1 of its type written out, and the growth of a saga's delay is
-- a parameter.
--
-- Times are numbers, and 0 is Go's zero time; the durations of trace events, which are floats, are
-- left out. The search for a free key of a health report runs on as much fuel as there are entries
-- and one more, which is enough since it tries different keys.
--
-- Not modelled: JSON, reflection, logging, network clients, the bindings to other transports and cloud
-- services, tokens and their keys, rate limits over floats, timers, code generation and tests.
pub mod Prelude
pub mod Flow
pub mod Maps
pub mod Topic
pub mod Wire
pub mod Status
pub mod Result
pub mod Registry
pub mod Pipeline
pub mod Router
pub mod Idempotency
pub mod Resilience
pub mod ResponseEvents
pub mod Envelope
pub mod InProcess
pub mod Mesh
pub mod Metadata
pub mod HealthCheck
pub mod Cache
pub mod Cors
pub mod Client
pub mod Aws
pub mod MeshCollector
pub mod Saga
pub mod Scope
pub mod HttpStatus
pub mod GrpcStatus
pub mod Tests
