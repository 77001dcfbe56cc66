-- ===== src/Lib.antt =====
-- The GCP metrics exporter: a /metrics scrape is parsed, turned into one Cloud Monitoring
-- ListTimeSeries call, and its series are answered as Prometheus metric families; a /gmp-metrics scrape
-- is an instant query against Google Managed Prometheus, answered the same way.
--
-- A request goes through internal/handler (the concurrency gate, parseRequest, a collector from the
-- factory, the error mapping) to internal/collector (buildRequest, the loop over the iterator, the
-- conversion of each series, the help text with the unit from the descriptor cache), or to
-- internal/gmp (Query, parseQueryResponse, the families of the vector). The clients of both come from
-- caches, which build them with the token sources of internal/auth. cmd/server reads the configuration
-- from the environment, wires all of this together, serves, and shuts down.
--
-- - Common: numbers, integers and lists. Errors: Go's error values as trees,
--   with errors.Is and errors.As. Effects: functions
--   that may fail and change a world. Strings: the parts of strings and strconv that the program uses,
--   with Atoi against FormatInt. Api: times and durations in nanoseconds, float64 as
--   an interface without laws, the messages of Cloud Monitoring and of the Prometheus client, and the
--   two records of what stays a parameter: Sdk (enum tables, gRPC status) and GoLib (%q, ParseDuration,
--   Duration.String, SHA-256, ToLower).
-- - Families: the map of families and the order of its keys, which both
--   collectors keep (Families/Grouping against a plain grouping by key).
-- - Collector: internal/collector/collector.go and descriptor.go. Params is QueryParams and the
--   defaults; Request is buildRequest and composeFilter; Naming is promMetricName; Convert is
--   convertSeries with buildLabelPairs, scalarValue and the points' moments; Histogram is buildHistogram
--   and bucketBounds; Descriptor is unit, resultUnit and helpText; Collect is the loop and Collect;
--   Clients is ClientCache of cache.go, on the map of the module ClientCache.
-- - Auth: internal/auth/auth.go, NewTokenSource and loadBaseCredentials.
-- - Handler: internal/handler/handler.go. Limits is the constructor's defaults; Request is
--   parseRequest; MapError is mapError; Http is the responses, the log lines, writeJSONError and
--   HandleHealthz; Metrics is ServeHTTP and respondError; Gate is the semaphore.
--   GmpRequest, GmpError and GmpMetrics are gmp_handler.go: parseGMPRequest, mapGMPError, ServeHTTP and
--   respondGMPError.
-- - Gmp: internal/gmp. Collect is Collect and normalizeLabels of collector.go; Client is Query and
--   parseQueryResponse of client.go; Clients is ClientCache of cache.go, on the same map.
-- - Server: cmd/server/main.go. Config is loadConfig; Logger is buildLogger; Healthcheck is
--   --healthcheck and runHealthcheck; Wiring and Factory are what main makes of the configuration, the
--   caches and the two factories; Life is the atomic steps of requests on the shared caches; Shutdown
--   is main from "server started" to the exit code, and Main is main as a whole.
-- - Tests: the theorems at concrete inputs.
--
-- An iterator is a function from the number of the call of Next to its answer. The loop of Collect
-- runs on fuel; drain gives it one more than the cap, which is enough for every iterator, since each
-- round but the last counts a series below the cap. uint64 sums wrap modulo 2^64. A clock is a function
-- from the number of its reading; a collector's effects are a world that is passed along. The digits
-- of an integer are made with fuel 20, more than an int64 has.
--
-- Not modelled: what the program imports (Google's credentials, the SDK client, net/http with its mux,
-- its transport and Shutdown, encoding/json, log/slog's output), which are parameters; the flag
-- package; the HTTP server's goroutines, of which only the steps on the shared caches are interleaved,
-- while the lines that they log fall among main's in an order that is a parameter; debug log lines of
-- skipped series; texts that are not valid UTF-8; requests that outlive the grace of the shutdown, but
-- for the lines that they log.
pub mod Common
pub mod Errors
pub mod Strings
pub mod Api
pub mod Families
pub mod Collector
pub mod Gmp
pub mod Handler
pub mod Effects
pub mod Auth
pub mod ClientCache
pub mod Server
pub mod Tests
