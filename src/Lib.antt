-- ===== src/Lib.antt =====
-- A verification of the core of the web gateway: how a chat request is admitted, given an account of
-- the provider, and served in a conversation.
--
-- A request comes in with an API key, whose allowance per minute the rate limiter keeps. The routing
-- engine asks the store for the accounts of the provider, leaves out those that are switched off, have
-- used up their window, are shut by their circuit or are twins of another, orders the rest by the
-- strategy of the configuration, and takes a permit of an account's concurrency gate and an attempt
-- of its usage window. The adapter of the provider then leases a conversation from the session pool, the
-- forwarder makes the exchange, and the stream handler turns the provider's events into the reply.
--
-- Files, and the code they model:
--   Concurrency: src/server/gateway/concurrency.ts. ConcurrencyGate is the class; try_acquire, acquire,
--     drain, release, settle_unavailable and abort are its methods and closures. A promise is a number
--     and the entry that settles it, a release closure is the number of its permit, and timers and
--     abort signals are events that the environment may bring at any point. Concurrency/Invariant,
--     Handover and Settlement hold the proofs.
--   SessionPool: src/main/proxy/adapters/deepseek-session-pool.ts. acquire is cut at its awaits, so
--     calls interleave: acquire_start, retire_next, choose and adopt are its parts, release and
--     invalidate the other methods, and step runs one part. Proofs: SessionPool/Rising, Counters,
--     Leases and Race.
--   RateLimiter: src/server/security/rate-limiter.ts, consume and prune. Proof: RateLimiter/Bound.
--   Usage: getAccountUsageWindow and consumeAccountUsageWindow of src/main/store/store.ts over the rows
--     of their table. Proofs: Usage/Bound and Usage/Agreement. SlidingWindow is the count of times in a
--     window that both bounds are stated with.
--   ApiKeys: the API keys of src/main/store/store.ts. ApiKeys/Records has their records, ApiKeys/Store
--     createApiKey, findApiKey, updateApiKey, rotateApiKey, deleteApiKey and seedBootstrapApiKey over the
--     rows of the table, ApiKeys/Quota consumeApiKeyDailyQuota and the counts per date.
--   Crypto: hashSecret, constantTimeEqual and secretPrefix of src/core/security/crypto.ts.
--   Guard: src/server/security/api-auth.ts. api_key_guard is the guard that requireApiScope makes.
--     Guard/Access says who passes, Guard/Order and Guard/Answers what each answer means, Guard/Quota bounds
--     what is admitted.
--   AddressList: src/server/security/ip-allowlist.ts. AddressList is parseIpv4 and parseIpv6, AddressList/Match
--     parseIp, parseCidr, isValidIpOrCidr and isIpAllowed. Proof: AddressList/Ranges.
--   Chat: src/server/routes/openai.ts. execute_chat is executeChat, finalize_stream finalizeStream and
--     post_chat the route's handler, over what one request holds; Surroundings has the answers and the
--     throws of what it calls: of forward, of the shaping of the body, and of updateAccount, startRequestLog
--     and finishRequestLog of the store. The methods of the client's connection do not throw, other than
--     the sending of the body. Proofs: Chat/Course and Chat/Success.
--     Chat/Messages is publicErrorMessage.
--   Forwarder: src/main/proxy/forwarder.ts. forward_chat_completion is forwardChatCompletion. Proof:
--     Forwarder/Sessions, over the runs of the stream handler.
--   Priming: src/server/gateway/streaming.ts, primeStream as a machine over the timer and the stream's events.
--     Proof: Priming/First.
--   Stream: src/main/proxy/adapters/deepseek-stream.ts. Stream/Json has JSON values and the reads of them;
--     Stream/Errors providerErrorFromPayload, providerErrorFromChunk and the codes; Stream/Decoder and
--     Stream/Events the class DeepSeekEventDecoder; Stream/Handler handleStream as a machine over the events
--     of its two streams (on_data, on_end, on_error and on_close are the listeners); Stream/Answer
--     handleNonStream. Proofs: Stream/Errors/Codes, Stream/Events/Results and Citations, Stream/Handler/Texts, Pieces,
--     Protocol, Settled, Steps, Runs and Sources, Stream/Answer/Agreement and Outcomes.
--   Strings: the methods and regular expressions of texts that these sources use; Strings/Lines is the split
--     into lines.
--   Router: src/server/gateway/router.ts. Router/Types holds the records; Router/Circuits
--     recordFailure, recordSuccess and the status helpers; Router/Candidates getCandidates,
--     orderCandidates and unavailableRoutingFailure; Router/Reserve gateFor, consumeUsageWindow,
--     reserveCandidate and reserveBackgroundCandidate; Router/Failover what forward
--     makes of the end of an attempt, handleAccountFailure and the release closure of a routed result;
--     Router/Forward the loop of forward. Each has its proofs in a module
--     below it. pass_once is one pass through the loop; Surroundings gives it the times, the answers of
--     the provider, and what other requests do to the engine during each await.
--   LinkSessions: src/server/providers/deepseek-link-session.ts. finish is the method complete. Proof:
--     LinkSessions/Exclusive.
--   Prelude: tests on numbers and texts, lists, sorting and maps, with their lemmas.
--   The modules named Examples run the code at concrete inputs.
--
-- Bounds and fuel: times are milliseconds as natural numbers, and Date.now() is an argument. The loop
-- of drain runs on fuel, one round more than there are waiters, which Concurrency/Invariant shows is
-- enough. The loop of forward takes one element of a list of Surroundings for each pass, and gives no
-- answer if the list is too short; Router/Forward/Returns shows that one element more than there are
-- accounts is enough. All other loops are structural.
--
-- Parameters: the language's lower-casing of texts and the hook that gives an account's identity are
-- fields of Router.Types.Hooks; the digest of node:crypto is the field of Crypto.Crypto; JSON.parse,
-- new URL, lower-casing, slicing, the text of a number and Buffer.toString are fields of
-- Stream.Errors.Host; the
-- address test of node:net, Number, numbers to the base 16 and lower-casing are fields of
-- AddressList.Platform. Nothing is assumed of them. The provider's numbers in JSON are whole and not
-- negative. A piece of a response is its bytes, or a text.
--
-- Not modelled: input and output (HTTP routes and their headers, the database, alerts, the web
-- interface), the credential vault, the provider's adapter, the reading of Retry-After, the idle
-- timeout of a stream, the health checks, and the schemas of requests. getState of the router and
-- clear of the session pool are left out too, and so are the id, the model and the time of a chunk and
-- its text in JSON.
pub mod Prelude
pub mod Crypto
pub mod Strings
pub mod Stream
pub mod Guard
pub mod Chat
pub mod Forwarder
pub mod AddressList
pub mod Priming
pub mod Concurrency
pub mod SessionPool
pub mod SlidingWindow
pub mod ApiKeys
pub mod RateLimiter
pub mod Usage
pub mod Router
pub mod LinkSessions
