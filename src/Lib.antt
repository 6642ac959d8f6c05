-- ===== src/Lib.antt =====
-- A verification library for a2akit, the framework that runs agents behind the A2A protocol
-- (src/a2akit in the repository).
--
-- A client's message reaches `TaskManager`, which creates or continues a task in the `Storage` and
-- hands an operation to the `Broker`. `WorkerAdapter` takes it from there, gives the user's worker
-- a `TaskContext`, and acknowledges it. Both write tasks through the `EventEmitter`, which stores
-- first and then publishes on the `EventBus`, from which clients stream. A cancellation may come
-- at any time, from the manager or from the adapter.
--
-- Prelude, Dict, Errors, Wire: shared tests and lists, Python's dict as an association list in
-- insertion order, exceptions as values, and the protocol's data.
-- Storage: src/a2akit/storage/memory.py and the helpers of storage/base.py. `create_task` is in
-- Storage, `update_task` in Storage/Update, `_apply_artifact` in Storage/Artifacts, the deletions
-- in Storage/Delete, `list_tasks` in Storage/Listing.
-- EventBus: src/a2akit/event_bus/memory.py.
-- Push: src/a2akit/push. The configurations are in Push/Store, the handlers of requests on them in
-- Push/Handlers, `resolve_webhook_url` in Push/Validation, one delivery with its retries in
-- Push/Delivery, the queue of a webhook and the steps of its worker in Push/Lane, `deliver` in
-- Push/Service, and the emitter that triggers it in Push/Trigger. Protocol:
-- src/a2akit/_protocol.py. Parts: src/a2akit/_parts.py.
-- Runtime: the world that the coroutines share, and the coroutines' monad. Each call of the
-- storage is an `await`: before it other writers may act, by calls of the same storage, as a
-- schedule in the world says. With the schedule left arbitrary a theorem is about every
-- interleaving of storage calls.
-- Emitter: src/a2akit/event_emitter.py and hooks.py. Cancel: src/a2akit/cancel.py.
-- Sql: `update_task` and `create_task` of src/a2akit/storage/_sql_base.py and sqlite.py, on a table
-- of rows.
-- Dependencies: src/a2akit/dependencies.py. Middleware: src/a2akit/middleware/auth.py, and the
-- pipeline of src/a2akit/endpoints_v10.py.
-- Manager: src/a2akit/task_manager.py, with `send_message` and `stream_message` in
-- Manager/Messages, and the cancel registry of broker/memory.py.
-- Worker/Context: `TaskContextImpl` of src/a2akit/worker/base.py. Worker/Adapter:
-- src/a2akit/worker/adapter.py and the handle of broker/memory.py.
-- Http: the transports over these. Http/Catalog is src/a2akit/_errors_v10.py, Http/Frames
-- _stream_v10.py with the generators of server-sent events, Http/Envelope the envelope of
-- middleware/base.py and the loops over the middleware, Http/Rpc the endpoint that jsonrpc_v10.py
-- and jsonrpc.py share, Http/V10 and Http/V03 their handlers, Http/Rest the routes of
-- endpoints_v10.py, with its `message_send` in Http/Rest/Message, Http/RestV03 those of
-- endpoints.py, each Bodies what its handlers answer and pass on, and Http/Actions what the other
-- handlers do with the task manager and the push store. A response holds the value that
-- `model_dump` is given, and a request's parameters are JSON values.
-- Redis: the handle, the broker and, in Redis/Cancel, the cancel scope of
-- src/a2akit/broker/redis.py, as the commands that they send to a server that is a parameter, with
-- the laws of its documentation. A SUBSCRIBE is sent, and carried out by the server later.
-- Tests: the theorems on concrete data.
--
-- What the package does not decide is a parameter: the clock, fresh identifiers, what a stream of
-- anyio answers, what a task group of anyio raises, the text of an exception, the user's worker and
-- dependencies, name resolution and URL parsing, the replies of a webhook, what other sessions do
-- to a database, what pydantic validates, and Redis. Fuel: `deliveries` counts the deliveries of
-- one operation and `follow` the requests of a client, each with a theorem that says how much is
-- enough; the attempts of the SQL `update_task` are the source's own bound, 1 or 8.
--
-- Not modelled: the Redis storage and event bus, the connection and the loops of the Redis broker
-- and the cleanup of its scopes, the discovery document, the assembly of the server, the client,
-- agent cards and telemetry, which are calls of other libraries or of databases; and, of the
-- parts above, the adapter's receive loop, the SQL operations other than these, and the shutdown
-- of the push delivery.
mod Tests
pub mod Prelude
pub mod Dict
pub mod Wire
pub mod Errors
pub mod Storage
pub mod Parts
pub mod Runtime
pub mod Emitter
pub mod Cancel
pub mod Manager
pub mod Worker
pub mod Push
pub mod EventBus
pub mod Sql
pub mod Dependencies
pub mod Middleware
pub mod Http
pub mod Redis
pub mod Protocol
