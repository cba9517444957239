-- ===== src/Lib.antt =====
-- SmartGate, an AI gateway: its control plane decides which requests are admitted and which
-- endpoint serves them. This library models the parts that keep state or decide, as plain functions
-- and step relations, and proves what makes them correct.
--
-- Base: the shared names, list helpers, texts as lists of code points, and a concurrent map
--   (`DashMap`) as a function into `Option`.
-- Float: an abstract `f64`, with the laws of its order and of its rounding as named records, and
--   decimals with twelve digits as an instance that meets them.
-- Auth (src/auth/mod.rs): `Identity` finds the key and the project of a request, `Models` the model
--   that it may use. The tables of the database are lists, its queries functions on them; the order
--   of ids and the failures of the database are parameters, as is the hash of a token.
-- Quota (src/quota/mod.rs): the limits on requests per minute and on concurrency. `Window` holds the
--   request times of an id, `Counters` the requests in flight, `Limiter` the whole of
--   `try_acquire` and `release`. `System` is the limiter under traffic, where each
--   call is one step: calls that overlap are not modelled. `Interleaving` has the compare-and-swap
--   loops of the counters among the writes of other threads. The calls of the metrics crate are
--   left out.
-- Session (src/policy/session.rs): `Store` is the table of sticky sessions, with reads of the clock as
--   arguments; `Ids` reads the session that a request names, `Hash` the hash of its prefix, whose
--   JSON is a parameter.
-- Budget (src/policy/budget.rs): the gate that warns or blocks when a daily limit is near or spent.
-- Pricing (src/pricing/mod.rs): prices, billing tiers and the cost of a request; `Capability` scores
--   models by their names, `Dna` gives the profile of a model for display.
-- Routing (src/routing/strategy.rs, src/routing/mod.rs): `Cost` is the expected cost of a request at
--   an endpoint, `Strategy` its score under each strategy, `Candidate` and `Evaluate` the signals that
--   a pool gives to the data plane for one request; `Explain` is how they are recorded.
-- Health (src/usage/mod.rs, src/models/mod.rs): the metric of an endpoint, updated by the hooks at
--   the start and end of an attempt, and the row of the database that keeps its health.
-- Usage (src/usage/mod.rs): the hook at the end of a request. `Finish` gives back the slot and records
--   the session, `Row` prices the tokens and writes the row of the log.
-- Context (src/policy/context.rs): the reduction of tool results. `Json` is the part of
--   `serde_json` that it uses, `Text` the operations on strings, `Slim` the reduction.
-- Difficulty (src/policy/tokens.rs): the estimate of tokens and the difficulty of a request; `Words`
--   has the words that count, `Focus` the text they are looked for in, `Signals` the preview of a
--   prompt and what is listed of it.
-- FreePool (src/free_token/mod.rs): free API keys. `Window` holds the times of the claims of each
--   address, `Claim` the handler that gives out a key, `Check` the one that looks a key up. The
--   database, the random ids and the hash of a key are parameters.
-- Warm (src/warm/mod.rs): the prefixes of sessions that agents publish, to send only deltas later.
--   `Keys` is how a session is named to the session library, `Sessions` the interface of that library
--   as a record with its laws, `Store`, `Operations` and `Reads` the operations of `WarmStore` in
--   memory over it, as actions on a `World`. `Script` has the Lua scripts of `RedisBindingStore`,
--   each one step on the two keys of a session, and `Binding` its other commands, one after the
--   other. `Request` reads the context of a request, `Gateway` hands it on. `Counts` is about the
--   counts of publications. The fingerprint of messages is a parameter.
-- Accounts (src/saas/auth.rs): registration and login. `Database` has the tables, and the queries with
--   their failures and the rollback of a transaction that is dropped before its commit, `Checks` what
--   is checked of a request, `Register` and `Login` the handlers.
-- Proxy (src/api/proxy.rs, judge.rs, shadow.rs, warm.rs): the handlers. `State` has what they share
--   and, as the record `DataPlane`, what they ask of the data plane: a call gives an outcome, the
--   requests that finished during it, and what it leaves of the warm store and of the metrics.
--   `Stage` is the monad of their early returns and panics, where `holding` drops a permit at the
--   end. `Stages`, `QuotaStage`, `Judge`, `Borderline`, `Affinity`, `Decision`, `Metadata`,
--   `Dispatch` and `Shadow` are the stages, `Chat` and `Serve` put together `chat_proxy`,
--   `Responses` the handler `responses`, `WarmApi` those of the warm store.
--
-- A request passes Auth; Warm reads its context; Budget may block it, or ask Routing for cheaper
-- endpoints; Context reduces its messages; Difficulty rates it; Quota admits it. Session gives the
-- endpoint to stay with, and Routing scores the endpoints from Pricing and Health. Warm then
-- replaces a delta by the messages it stands for. The end of an attempt updates Health; the end of
-- the request, in Usage, releases Quota and updates Session.
--
-- The only counts that bound a recursion are those of the digits of a number and of the bits of an
-- exclusive or: a `usize` has at most 20 decimal digits, a hash 16 hexadecimal ones and 64 bits.
-- A request of the proxy has no loop; the compare-and-swap loops are on fuel, more of it than other
-- threads write.
-- Not modelled: the other handlers (administration, profiles, analytics, statistics), which are SQL or
-- HTTP, the composition of the warm store with Redis, requests of the proxy that overlap, and the
-- order of the candidates in the log, which needs a hash. What SmartGate takes of the UniGateway
-- SDK, of serde_json and of the clock are parameters. A header is a text: the values that HTTP does
-- not allow in one, which the handlers leave out, do not occur here.
pub mod Auth
pub mod Base
pub mod Quota
pub mod Session
pub mod Usage
pub mod Float
pub mod Budget
pub mod Pricing
pub mod Accounts
pub mod Proxy
pub mod Routing
pub mod Health
pub mod Context
pub mod Difficulty
pub mod FreePool
pub mod Warm
