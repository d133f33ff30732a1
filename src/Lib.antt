-- ===== src/Lib.antt =====
-- The router of tokendog: an HTTP gateway that spreads the requests of language-model clients
-- over inference workers. Paths below are under crates/router/src, but for python/router-py.
--
-- A request context is matched against a pool of workers. AppState (server.rs) holds the pools
-- and the policies, takes the healthy workers of the pool that serves, lets the policy choose
-- among them, maps the choice back to the pool and notifies the policy; when the request is done
-- it notifies the policy again. The policies (policies/) are implementations of the trait
-- LoadBalancer. The health checks (worker/) set the flags of the workers, and service discovery
-- (service_discovery.rs) adds and removes the workers of the Kubernetes pools.
--
-- Base has the helpers: lists over machine naturals, texts, machine words, and Outcome, whose
-- panic is a Rust panic. Env holds what a call takes from its surroundings, the random draws and
-- the clock; a draw lies in its range, as the crate rand documents.
--
-- Policies models policies/: RequestContext and the trait, as a record of operations
-- (LoadBalancer) with a record of laws (IsLawful) that AppState relies on. Hash is stable_hash;
-- Active is the vector of atomic counters, where an index out of bounds panics and a counter
-- wraps at 2^64; RoundRobin, Random, LeastLoaded, PowerOfTwo, SessionAffinity, PrefixAffinity
-- and LoadCacheAware are the seven policies, and Shortest is jsq_fallback. A method that writes
-- through &self returns the new policy. The floating-point numbers of LoadCacheAware are the
-- parameter F64, and what the comparison of two of them promises is the hypothesis IsOrdered.
-- Balancer is Box<dyn LoadBalancer>, with make_policy of main.rs and server.rs; Balancer.Lawful
-- fills the laws for the seven policies.
--
-- Worker models worker/mod.rs and worker/health.rs; the HTTP client is a function that gives the
-- status of an answer.
--
-- Server models AppState of server.rs over any policy type: its constructors (Server and
-- Server.Build), next_worker and next_worker_with_context, the prefill and decode variants
-- (Server.Pd), and the operations that finish and record a request (Server.Completion). The
-- lines that every next_ method repeats are pick. Each operation is one call; that a call of
-- next_ is a selection and the count of a start, between which other calls may come, is a matter
-- of Running.
--
-- Discovery models service_discovery.rs: Pods has the configuration, the selectors and PodInfo;
-- Pools the shared pools; Events the handlers of a watch event; Reconcile the periodic
-- comparison with the cluster; Watcher the loop around the watch stream with its waits. The
-- tracked set is a list, so the order in which a set is visited is that of the list. Supervisor
-- is the periodic reconciliation with the task that restarts it, and Selection the label
-- selector and the scope of the API that the watcher asks. Consistency relates the pool to the
-- tracked set in regular mode, and Consistency.Updates follows it through any sequence of
-- events; in PD mode Roles takes the pods of one role with their pool as a discovery in regular
-- mode.
--
-- Middleware models middleware/: Context is extract_context over a JSON value (Json), Header the
-- filter of hop-by-hop headers, Error the error responses, and Handler the proxy handler from
-- the body to the reply, with the guard that finishes the request. The JSON parser, the URL
-- parser, the HTTP client and the response builder are parameters.
--
-- Config models config/mod.rs (the record, parse_selector in Config.Selectors), config/auth.rs
-- (Config.Auth), where the hash function and its comparison are parameters, and the rotating
-- writer of config/logging.rs (Config.Logging): the file system is the content of the log and
-- its backups, what it answers is a parameter of each write, and so is the compressor.
-- Config.Logging.Tracing is setup_tracing, over the record Tracing of what the tracing crates
-- give.
--
-- Routes models routes/. Prefill is the preparation of the prefill request of prefill.rs,
-- Pd.Bootstrap its SGLang parameters, Logprobs the merge of logprobs_merge.rs, where an object
-- that is changed in place is returned, with whether anything was merged. PdError and Pd are the
-- errors and the helpers of pd_handler.rs, Pd.Vllm and Pd.Sglang its two pipelines, and
-- Pd.Handler pd_proxy_handler, which serves a request by a pipeline or hands it to
-- proxy_handler. A pipeline is cut at each call that may fail; its result and the state it
-- leaves are values, so a request that an error leaves counted is seen in the state. What the
-- pipelines take from other crates is the record Crates. Trimming the scheme of a URL has the
-- number of its characters as fuel, which is enough since each turn takes one off at least.
-- Server.Stages has what the prefill and the decode stage have in common in either mode.
--
-- Startup models main.rs from the parsed command line to the state, with the configuration of
-- the service discovery, and one turn of the health check loop; Startup.Launch models main as a
-- whole, over the record Host of what the operating system, tokio and axum answer.
-- Startup.Python models the Router class of python/router-py/src/lib.rs, Serve the state that
-- its serve builds and Serving its serve as a whole; str::to_lowercase is a parameter.
--
-- Service models build_router of server.rs: the calls of axum are the record Axum, what axum
-- documents of them the laws IsAxum, and the handlers are health_handler and pd_proxy_handler
-- behind the middleware of config/auth.rs.
--
-- Running puts the parts together: the state that Startup builds, with the list of the requests
-- in flight, and steps for the calls that the handlers, the health checks and the discovery make
-- on it, in any order. A policy has counters for as many workers as capacity_of says, 256 where
-- Kubernetes finds them. rebuild_policy, which nothing calls, is no step.
--
-- Other loops are structural recursion. Not modelled: what other crates do (HTTP, JSON text,
-- URLs, files, the Kubernetes client, which are parameters), the sockets, signals and spawned
-- tasks of main.rs, server.rs and the Python bindings, of which a result is a parameter, and
-- what is printed or logged.
pub mod Base
pub mod Config
pub mod Policies
pub mod Worker
pub mod Server
pub mod Discovery
pub mod Middleware
pub mod Routes
pub mod Startup
pub mod Running
pub mod Service
pub mod Tests
