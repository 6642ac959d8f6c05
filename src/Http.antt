-- ===== src/Http.antt =====
-- The HTTP transports: jsonrpc_v10.py and jsonrpc.py (JSON-RPC of v1.0 and v0.3),
-- with _errors_v10.py, _stream_v10.py and the envelope of middleware/base.py.
pub mod Json
pub mod Catalog
pub mod Envelope
pub mod Frames
pub mod Service
pub mod Rpc
pub mod Actions
pub mod V10
pub mod V03
pub mod Rest
pub mod RestV03
