-- ===== src/Lib.antt =====
-- Verification of the core of the Radicalbit AI Gateway: how requests, tokens, seconds of audio and
-- money are counted in windows of time, and when a request is refused; how a model is selected and
-- called, with its fallbacks, and what the call costs; and how events are buffered and turned into
-- alerts. The code stands in gateway/radicalbit_ai_gateway/, from which paths are given here.
--
-- The parts and their modules:
-- - Limiter/Storage: limiter/storage/base.py, the interface of a backend that holds counters with
--   an expiry, and the laws that a limiter relies on. A backend's data stands for a cell for each
--   key, and a cell counts until it expires. Limiter/Storage/InMemory: limiter/storage/memory.py,
--   a dictionary, with Laws about it.
-- - Limiter/Window: limiter/window_config.py, `parse_window`, `format_window` and `WindowConfig`.
-- - Limiter/Base: limiter/base.py with fixed_window.py and fixed_aligned.py, `test`, `hit`,
--   `consume` and `get_window_stats` over any backend; Keys, Windows, Counting and Stats are
--   about the key, the boundaries, the counter and the statistics.
-- - Limiting/Event: limiting/limit_event.py, a hit on a window and the events for the alert
--   thresholds that it crosses.
-- - Limiting/Config: models/limiting.py, the configured limits and their validation.
-- - Limiting/Room: the check that all limiting classes repeat: a test, and on failure the
--   statistics, an event, a telemetry counter and an exception.
-- - Limiting/Route: the limits of a route. Rate, Token, Budget and Duration are
--   limiting/rate_limiter.py, token_limiter.py, budget_limiting.py and duration_limiter.py; Build
--   has their constructors.
-- - Limiting/Entries: what the next two share, a check of several windows before any is counted.
-- - Limiting/Credential: limiting/credential_limiter.py. Build is about the constructor, Checks
--   about the methods (Empty about them over a backend without counters), Clear about
--   `clear_limit_counter`.
-- - Limiting/Project: limiting/project_budget_limiter.py.
-- - Events/Buffer: events/buffer.py, the buffer of items for a Celery task. Sections is about
--   what happens under its lock, Sequential about methods that run one after the other, Threads
--   about any order of the threads' moves.
-- - Alerting/Names: alerting/limit_event_names.py, with RoundTrip about reading a name back.
--   Alerting/Store: alerting/alert_store.py, the interface of the state that alert rules share
--   and what the dispatcher relies on; InProcess is the store in two dictionaries, with Laws
--   about it. Alerting/Rules: models/alert_rule_dto.py, db/dao/alert_rule_dao.py and the naming
--   of events, with Limits about the events of the limiting classes. Alerting/World: the mail and
--   the records that the dispatcher leaves. Alerting/Handlers and Alerting/Dispatch:
--   alerting/alert_dispatch.py, the handlers of the time aggregations, and `dispatch` with
--   `close_windows`. In Dispatch, Sends is about `_send`, Once about the windows of limits,
--   Counts, Closing and Life about the tumbling windows of rules, Encoding about their names.
-- - Invocation/Registry: `_initialize_models` of invocation/model_invoker.py, with Lookup and
--   Table about it. Invocation/Fallbacks: `_execute_with_fallbacks` of
--   invocation/chat_model_invoker.py, with Attempts about it. Invocation/Stream: `stream` of the
--   same file, with History about the attempts it makes, computed without its statistics,
--   Delivery about what the client and the record get of them, and Success about when it
--   succeeds. Invocation/Metrics: `_record_metrics` and services/cost_service.py, with Costs
--   about them.
-- - Routing: routing/deterministic_router.py, with Order about the rules that sort their entries,
--   and Conditions and Bounds about the conditions on a number of tokens.
-- - Prelude: texts, decimal numerals, dictionaries, results and tests of numbers. Tests: the
--   theorems at concrete inputs.
--
-- State: an operation of a backend or a limiter acts on a machine (Limiter/Machine): the backend's
-- data, the wall clock in whole seconds, and the supply of UUIDs. The clock may move by any number
-- of seconds between two readings, which an environment gives, and is never set back. The methods
-- of the limiting classes act on a world (Limiting/World), which adds the queued events and the
-- increments of the telemetry counters, and may raise an exception: what was done before stays
-- done. The dispatcher acts on a world of its own (Alerting/World), with the machine of the alert
-- store, the messages sent and the alerts recorded; a limit's event is the same record in both
-- worlds. The clock of the alert store is read in whole seconds too, although the in-process store
-- compares timestamps with fractions of a second: what is held here until a second is over may
-- expire within it there. An operation of a backend is one step, as the in-memory backend holds its
-- lock for the whole body; the methods of one request run to their end, except in
-- Limiting/Route/Rate/Flight, where the checks and the counts of different requests come in any
-- order.
--
-- Numbers are natural numbers; `consumed - cost`, which may be negative in the code, is written as
-- a sum on the other side. Python's floating point, the tokenizer and the reader of WAV headers are
-- parameters, and no statement depends on what they return. Texts are lists of code points, and are
-- read as ASCII where a window's size is parsed. No definition runs on fuel: the loops are
-- recursive on their lists.
--
-- The calls of a provider, the SMTP server, the broker, JSON and cron expressions are parameters
-- too, where a call that may fail returns an option; the n-th call may have another outcome than
-- the one before. Prices are whole numbers of a small unit.
--
-- Not modelled: limiter/storage/redis.py and the Redis store of alerts, whose work is done by a
-- Redis server; the gateway's handling of a whole request (ai_gateway.py) and the clients of the
-- providers (llm/); the routers that ask a model; a client that leaves a stream before its end;
-- logging and the wording of messages; the classes' HTTP responses. Of the choice of a backend by a
-- constructor only the result is modelled, as a parameter of the methods: a route's limiter has one
-- for its life, whereas a credential's or project's limiter, which is built for each request, has
-- the Redis server or a new empty dictionary.
pub mod Alerting
pub mod Events
pub mod Invocation
pub mod Limiter
pub mod Limiting
pub mod Prelude
pub mod Routing
pub mod Tests
