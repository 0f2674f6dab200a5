-- ===== src/Lib.antt =====
-- An LLM gateway that routes chat requests to private and to managed providers by a data policy, falls
-- back along a bounded route, prices what it used, and compares the costs of the two paths
-- (src/inference_gateway/).
--
-- The parts, from the bottom, and how they meet in a request:
--   * Models: the enumerations, errors and canonical records of models/ (enums.py, errors.py,
--     domain.py). Models/Errors has the table that says which error classes let fall back.
--   * Config: the documents of config/schema.py with their validators (Config/Routing for the routing
--     policy, Config/Providers for providers and prices, Config/Gateway for both together), and the
--     price of one request (config/pricing.py, Config/Pricing). A validator is a function to a Result.
--   * Adapters: the protocol of adapters/base.py. An adapter talks to the network, so what it answers,
--     and after how long, is a parameter over a state of its own. Adapters/Anthropic and
--     Adapters/OpenaiCompat are the parts of adapters/anthropic_managed.py and openai_compat.py that
--     read the answers: usage, errors and the loops over a stream's events or lines. Adapters/Mock is
--     the whole scripted adapter of adapters/mock.py.
--   * Security/Auth: `authenticate` of security/auth.py. SHA-256 is a parameter.
--   * Routing/Policy: `select_route` of routing/policy.py. Routing/Fallback and Routing/Stream:
--     `FallbackExecutor.chat` and `FallbackExecutor.stream` of routing/fallback.py, as functions of the
--     time and of the state of the adapters (`Live`).
--   * Api/Schemas: api/schemas.py. Api/Handler: the checks of `chat_completions` in api/routes.py, and
--     the call of the router and of one of the two handlers in Api/Respond (`_non_streamed`,
--     `_streamed`), which run the executor and give a response (Api/Response)
--     and the metrics entries of Api/Record.
--   * Benchmark: the load generator of benchmark/. Scenario, Records and Slo are the documents of models.py
--     and slo.py with their validators, Manifest the gates of `build_manifest` in manifest.py, which a
--     run passes first. Harness, Request and Measure are the client of harness.py: `_stream_text` over
--     the lines of a stream, the body of a whole answer, and the record of a request. Harness/Lines
--     joins the client to the gateway: the lines that the events of Api/Response are sent as.
--     Comparison is `_claimability` of comparison.py: when two runs support a claim. Evaluators is
--     `evaluate_classification` of evaluators.py.
--   * Costing: what costing/engine.py and costing/scenario_grid.py compute of the records and of the
--     rates: aggregates, views A and B, token totals (Engine, Tokens), replicas (Capacity), and the
--     table of both paths (Grid, with its loops in Grid/Rows).
--   * Decimal: Python's Decimal as an exact fraction. Prelude: shared names, lists, dicts, results.
--
-- In each part the file named after it has the definitions, one for each function or loop body of the
-- source and with its name; the files below it have the theorems, `Samples` the test data and
-- `Examples` the tests.
--
-- Abstractions. A time is a whole number of microseconds on one clock, and passes only in awaited
-- calls: the adapter's answer, a retry-after sleep, and the consumer's pace between two chunks
-- (`pace`). A timeout cuts a call off at its budget; a call that never ends is `hangs`. A stream is a
-- finite sequence of chunks with an end. Money is exact: the 28 digits at which Decimal rounds are not
-- modelled. Pydantic reports all errors of a document at once; a validator here gives its first.
-- Texts of error messages, log lines, free-form metadata and histogram values are left out. A client
-- reads a stream to its end. Loops are structural recursion on the list that the source walks, so
-- that no function needs fuel and all of them are total.
--
-- Not modelled: the HTTP and client libraries under the adapters, their whole-response calls and
-- health checks, the mock server (faultmock/), the concurrent driver of the benchmark, its datasets,
-- other evaluators, statistics and reports, how a comparison reads, pairs and prints two runs, what
-- the manifest copies from files and the environment, file loading (config/loader.py), the application
-- factory and the other endpoints (api/app.py), and the command-line tools (main.py, local_smoke.py,
-- fault_evidence.py). The HTTP client and the JSON parser of the benchmark are parameters: a line or a
-- body stands for the value that was read in it.
mod Prelude
pub mod Decimal
pub mod Models
pub mod Config
pub mod Adapters
pub mod Security
pub mod Routing
pub mod Api
pub mod Benchmark
pub mod Costing
