-- ===== src/Lib.antt =====
-- proxysplit is an HTTP proxy that splits a download into chunks of bytes and fetches them in parallel
-- through a pool of upstream proxies. This library models its core, one module for each part.
--
-- - Base, Dict, Text, Float: shared helpers. Dict is Python's dictionary in insertion order, Text a
--   string as the list of its codes, Float an interface for Python's floats without laws.
-- - Stats (proxy/stats/proxy_stats.py, `ProxyStats`): counters, samples and the memoised score of each
--   proxy. A method that mutates the shared entry of a proxy writes it back.
-- - Breaker (proxy/circuit_breaker.py, `CircuitBreaker`): bans with backoff, and the single probe after
--   a ban. A method is one step under its lock; the wait of `allow_request` lies between two steps, so
--   that a list of steps is any interleaving of threads.
-- - Wiring (proxy/session_pool.py, `record_failure` and `record_success`): the statistics as the row of
--   failures that the breaker counts and ends.
-- - RateLimiter (proxy/rate_limiter.py): one token bucket for each proxy.
-- - Registry (proxy/registry.py, `ProxyRegistry`, and in proxy/session_pool.py `pick_proxy` and
--   `distribute_proxies`): the pool, which proxies are available, and which proxy a chunk gets.
-- - Cache (proxy/cache.py, `ResponseCache`): the LRU cache with times to live and `Cache-Control`.
-- - Ranges (proxy/handlers/inner.py, `build_ranges` and `apply_per_proxy_chunk_sizes`): the ranges of
--   bytes of a download, of one size or of a size for each proxy.
-- - Chunk (proxy/fetchers/chunk.py, `fetch_chunk`): the attempts for one chunk. The breaker, the
--   registry, the limiter, the statistics and aiohttp are the record `Services`.
-- - Transfer (proxy/handlers/inner.py): the window that a `Range` header asks for (`client_window`), the
--   assembly of the chunks (`assemble`), and in Transfer/Inner `handle_inner`, whose services are the
--   record `Parts`.
-- - Stream (proxy/streaming/progressive.py, `_ProgressiveStream.send`): the tasks of a streamed response
--   and its write loop as a step relation, and the runs of it. Line 200 of the file does not compile; the
--   model is of the file without it.
-- - Head (proxy/fetchers/head.py): the probes that find the length of a content (`get_head_info`), and
--   the request without chunks (`fetch_whole`).
-- - Tunnel (proxy/streaming/tunnel.py) and WebSocket (proxy/streaming/websocket.py): what a raw
--   connection is taken for, and the requests that are written to the proxy and to the upstream.
-- - Tor (proxy/tor_manager.py): the instances of Tor, their ports, and the refresh of their circuits.
-- - Handler (proxy/handlers/request.py, `handle_request`): a request through the cache, the disk cache
--   and `handle_inner`.
-- - PoolBreaker (proxy/pool_breaker.py), ChunkSizer (proxy/stats/chunk_sizer.py), DiskCache
--   (proxy/disk_cache.py, over the interface `Sqlite` of its table), Dedup (proxy/dedup.py), Hooks
--   (proxy/hooks.py), Health (proxy/fetchers/health.py), SessionPool (proxy/session_pool.py), Config
--   (proxy/config_loader.py, proxy/config_watcher.py), Admin (proxy/handlers/admin.py):
--   one module each. Config/Watcher polls the configuration file and applies its live keys, Admin/Reports
--   has the handlers that report.
-- - Tests: concrete instances of the interfaces, and the theorems at concrete inputs.
--
-- Time is an argument of each operation. In Breaker and Cache it is a natural number of one unit, in
-- Stats and RateLimiter a float. The `while` loops of Ranges run on fuel, one round for each byte of the
-- window and one more, which is enough as each round passes a byte if the sizes are positive; without
-- fuel they return `none`. The loops of Tunnel and WebSocket over header lines have one round for each
-- byte and one more. The eviction loop of DiskCache has one round for each row and one more. All
-- other loops are structural.
--
-- Not modelled: sockets, the web server, child processes, logs and reports, which are I/O; the
-- status, test and metrics handlers; geographic tags; the metrics push.
pub mod Base
pub mod Dict
pub mod Float
pub mod Stats
pub mod Breaker
pub mod Text
pub mod Cache
pub mod Ranges
pub mod RateLimiter
pub mod PoolBreaker
pub mod ChunkSizer
pub mod Registry
pub mod Chunk
pub mod Transfer
pub mod Handler
pub mod DiskCache
pub mod Dedup
pub mod Hooks
pub mod Health
pub mod Config
pub mod SessionPool
pub mod Admin
pub mod Wiring
pub mod Stream
pub mod Head
pub mod Tunnel
pub mod WebSocket
pub mod Tor
pub mod Tests
