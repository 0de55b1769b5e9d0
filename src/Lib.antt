-- ===== src/Lib.antt =====
-- The gateway core of openrusty: what becomes of an intercepted connection, which route and module a
-- request goes to, which peer it is sent to, how often it is retried, what the plugins have to say in it,
-- what they keep between requests, and which configuration all of this runs on.
--
-- A connection that a redirect rule hijacks is sniffed and served, tunnelled, sent to the egress gateway or
-- closed (crates/openrusty-server/src/transparent.rs and egress.rs). A request runs through the phases of
-- a plugin chain (crates/openrusty-wasm) and is matched to a route and its upstream, or to a module by the
-- table of dynamic bindings (crates/openrusty-server/src/dynamic_routes.rs). It is then forwarded in up to
-- `retries + 1` attempts (crates/openrusty-server/src/pipeline/mod.rs). Each attempt runs the balancer phase
-- and picks a peer (crates/openrusty-server/src/pipeline_peer.rs) by a pin of a plugin or by the configured
-- balancer (crates/openrusty-proxy/src/balancer.rs) among the peers that the health registry
-- (crates/openrusty-proxy/src/health.rs) takes for healthy and the request has not tried yet. The outcome of
-- the attempt goes back into the registry. Every plugin has a store of its own
-- (crates/openrusty-wasm/src/host_state.rs).
--
-- A configuration is validated (crates/openrusty-core/src/config.rs), its endpoints are looked up and it is
-- published into the state of the gateway (crates/openrusty-server/src/state.rs), by the boot, by a reload
-- of the file (reload.rs) or by the ingress plane (ingress/mod.rs), which folds the watch events of a
-- cluster into snapshots, renders them (crates/openrusty-k8s) and merges them with the static routes.
--
-- The files, with the code that each models:
--   Transparent  crates/openrusty-proxy/src/detect.rs: the protocol of a connection; Conn, Split and
--                Prefixed: transparent.rs, transparent/prefixed.rs and the loop guard; Egress: egress.rs
--   Routing      crates/openrusty-server/src/pipeline/mod.rs: `match_route`, `request_host` and their
--                helpers
--   Dynamic      crates/openrusty-core/src/config/dynamic.rs: names, methods and paths of bindings; Table:
--                crates/openrusty-server/src/dynamic_routes.rs
--   Config       crates/openrusty-core/src/config/listeners.rs: the listeners and their validation; Schema:
--                the records of every section; Checks: `validate` of config.rs and of the sections
--   Kube         crates/openrusty-k8s/src/model: the objects of the cluster; Snapshot: snapshot.rs; Backends
--                and Render: render/routes.rs; Merge: render/mod.rs; Tls: render/tls.rs; Watch: watch.rs
--   Runtime      crates/openrusty-server/src/state.rs: the state and its publishing; Pool: client.rs and
--                upstream.rs of crates/openrusty-proxy/src; Resolve: its resolve.rs; Registry:
--                crates/openrusty-wasm/src/registry.rs; Boot: `from_config`; Reload: reload.rs; Apply:
--                ingress/mod.rs; Sni: tls/resolver.rs
--   Phase        crates/openrusty-core/src/phase.rs: phases, decisions and their codes
--   Session      crates/openrusty-wasm/src/session.rs and runner.rs: one phase across the chain
--   Store        crates/openrusty-wasm/src/host_state.rs: the key-value store of a plugin; Scan: its
--                cursors and the sweep
--   Health       crates/openrusty-proxy/src/health.rs: passive and active plane, gauges, reload
--   Balancer     crates/openrusty-proxy/src/balancer.rs: `swrr_next`, `ip_hash_pick`, `least_conn_pick`
--   Picker       crates/openrusty-server/src/pipeline_peer.rs: `pick_peer` and `release_peer`
--   Retry        crates/openrusty-server/src/pipeline/mod.rs (step 10 of `handle_request`) and the retry
--                gate of crates/openrusty-proxy/src/forward.rs
--   Admin        crates/openrusty-server/src/admin_auth.rs: the token of the management plane
--   Prelude      names of the library, Boolean tests, integers, lists, maps as association lists, texts,
--                results
--   Tests        the theorems at concrete inputs, and runs of the models
-- A definition has the name of the function or type that it models; Health.record_failure is
-- `record_failure` of health.rs. The child modules hold the proofs, by topic.
--
-- State is passed explicitly: the registry, the effective weights of an upstream, the session of the
-- request, the store of a plugin and the table of bindings. What the source does under a lock or with one
-- atomic operation is one step; the code between such steps is not interleaved with other requests. The
-- clock is a number of milliseconds that each operation is given. A text is the list of its characters or
-- bytes, a hash map an association list. Machine words are natural numbers with the wrap-around written
-- out; the effective weights of the weighted round-robin, which are `i64` in the source, are unbounded
-- integers, within the bounds shown for them. A panic of the source is a `none`, and an `unreachable!` an
-- effect of its own.
-- Loops are structural recursion over a list, over the reads of a stream or over the number of attempts
-- that are left; the calls of `scan_next` by a guest run on a list of what happens before
-- each of them, one item for each entry of the snapshot and one more.
--
-- A reload is one step; it holds a gate, so the plugin registry sees no other reload meanwhile, but its
-- attempts are modelled with what others publish. The application of a pair of snapshots does not take the
-- gate and is two steps, the read of the generation and the publishing; a runtime that it stores between
-- the two stores of a reload, of the plugins and of the runtime, is overwritten by the reload. The
-- configurations that an embedder applies are a parameter; `apply_config` does not validate them, and that
-- the embedder does is a hypothesis. The generation is a `u64`, so the number of steps is bounded.
-- Three attempts of a registry and ten digits of a `u32` are the bounds of the source and of the type.
-- The reading and decoding of files, TOML, JSON and base64, wasmtime, rustls and name resolution are
-- arguments of what uses them. The watch loop is a machine that turns on the answers of the API server and
-- the ticks of its timers, in every order.
-- The guest code of a plugin, the network, conntrack, the header map of the HTTP library and the printing
-- of addresses are parameters. Not modelled are the HTTP transport, the accept loops and TLS, the metrics
-- and the log, the timing of calls and the cancellation of a request, what the
-- management routes do, the guest's linear memory, the SDK of the plugins, the client of the
-- API server, the shutdown, and the set-up of redirect rules.
pub mod Prelude
pub mod Phase
pub mod Health
pub mod Kube
pub mod Runtime
pub mod Config
pub mod Balancer
pub mod Session
pub mod Picker
pub mod Retry
pub mod Store
pub mod Routing
pub mod Dynamic
pub mod Transparent
pub mod Admin
pub mod Tests
