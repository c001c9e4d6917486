-- ===== src/Lib.antt =====
-- gateway42: a gateway in Go that serves the OpenAI and Anthropic APIs from Ollama and
-- OpenAI-compatible engines, with an admin UI. A request passes the middleware stack, which finds
-- its user by API key; the rate limiter admits it; routing picks an engine for its model from the
-- adapters; the engine's stream is translated and relayed; and the log writers record it. Admin
-- actions change users and engines and invalidate what was derived from them.
--
-- The modules and the code that they follow, file by file from the repository's root:
--
-- - Prelude: Boolean tests, lists and maps over the native numbers.
-- - Users (db.go: userCacheGet, userCacheSet, invalidateUserCache, getUserByAPIKey and the other
--   user queries). A key is the hash that sha256Hex returns, a parameter. Coherence runs
--   sequences of calls; Race splits a lookup in two.
-- - Routing (routing.go: buildRouteIndex, storeRouteIndex, invalidateRouteIndex,
--   currentRouteIndex, selectEngine). A build is given by the probe answers in their order of
--   arrival; Publication interleaves builds and invalidations.
-- - Engine (engine.go: reloadEngineCache, newEngine and the cached readers).
-- - Probe (engine.go: probeEngineCached, refreshProbe, invalidateProbeCache, the peeks,
--   cachedProbeSnapshot, navEngines). Flights has the concurrent steps.
-- - Settings (handlers.go: handleEngineSettings, handleRemoveEngine, handleEngineTestDraft,
--   applyEngineEdit; engine.go: saveEngines). What the database does in a request is part of the
--   request. The list is read back as it was written.
-- - Login (auth.go: loginGuard; handlers.go: handleAdminLogin). Verification of a password is a
--   parameter; Interleaving splits an attempt at the derivation.
-- - RateLimit (ratelimit.go). golang.org/x/time/rate is the parameter Rate, and RateLaws is what
--   it documents of a bucket at one instant.
-- - Http (main.go: statusRecorder, apiAuthMiddleware, requestLoggingMiddleware,
--   recoveryMiddleware, writePanicResponse; csrf.go; metrics.go: metricsMiddleware). A handler is
--   the calls that it makes on the response, with Flush and without Hijack, and whether it then
--   panics.
-- - Admission (api_handlers.go: handleChatCompletions up to the engine request, decodeAPIBody,
--   acquireEngine; engine.go: concurrencyLimiter). It composes RateLimit and Routing; the taken
--   slots are a number per engine.
-- - Anthropic (anthropic.go: anthropicStream, stopReasonFromFinish; streamMessages in
--   api_handlers.go). Request and Response are the translations of whole requests and answers,
--   with text as bytes; Turns and Answers prove their properties.
-- - Api (api_handlers.go: handleChatCompletions, handleMessages, handleCountTokens,
--   buildEngineRequest; anthropic.go: estimateTokens). It composes Admission, Messages, OpenAi,
--   Anthropic and Stream; what the engine answers to a request is part of the request. Slots,
--   Audits and Requests prove its properties; Models is handleListModels, and Catalogue what it
--   lists.
-- - Stream (engine.go: ollamaStream.Recv, deltaAuditText; openai.go: formatStreamChunk;
--   api_handlers.go: streamCompletion; request_detail.go: applyMeta).
-- - Json (the values that encoding/json decodes a body into, and the assertions on them).
-- - OpenAi (openai.go; api_handlers.go: openAICompatRequest). History and Request translate to
--   the engine, Response back; Names, Allowed and Streaming prove their properties. Encoding,
--   decoding of text and minted IDs are parameters.
-- - Messages (api_handlers.go: sanitizeMessages, sanitizeContent), on JSON as a data type;
--   items_of is the history as a next gateway decodes it.
-- - Deadline (engine.go: streamDeadline). Bounds has the steps of a stream, with the clock and
--   the longest silence.
-- - Admin (handlers.go: handleLogout, handleChangePassword, handleRegister, handleToggle,
--   handleAdminResetKey, handleUpdateRateLimit, handleExport, handleDelete, handleResetSystem;
--   main.go: the session and the flashes; auth.go: validateName, validatePassword). It composes
--   Users and Login; Invariants runs a property of the site through every page. Hashing and what
--   is drawn at random are parameters.
-- - Logs (main.go: SyslogBuffer, bufSlogHandler; handlers.go: the log pages and their exports).
--   Export has the lines of the request log.
-- - Prune (db.go: pruneLogs). Batches shows the sweep to be one deletion.
-- - Text (auth.go: truncateInput; request_detail.go: truncateTo; api_handlers.go: streamAudit). A
--   Go string is the list of its bytes.
-- - LogWriter (logwriter.go). Both writers are one loop over their entry type.
-- - Usage (usage.go: buildUsagePanel, usageBarClass, usageWindowFor).
-- - Examples: the theorems at concrete inputs.
--
-- Times are numbers of nanoseconds with 0 for Go's zero time. Go's ints are natural numbers where
-- the code keeps them from being negative; a form value that may be negative is a case of its
-- own. Loops are structural recursion, except the loop over Recv in Stream, which runs on fuel:
-- one receive more than the stream has lines is enough.
--
-- Not modelled: HTTP and JSON as such (a payload enters as json.Unmarshal leaves it), SQL and the
-- schema, cryptography, templates and page rendering, process setup, and the upstream adapters.
pub mod Prelude
pub mod Text
pub mod Login
pub mod RateLimit
pub mod Engine
pub mod Routing
pub mod Anthropic
pub mod Users
pub mod Probe
pub mod Prune
pub mod LogWriter
pub mod Logs
pub mod Admin
pub mod Settings
pub mod Http
pub mod Usage
pub mod Stream
pub mod Admission
pub mod Api
pub mod Json
pub mod Messages
pub mod OpenAi
pub mod Deadline
pub mod Examples
