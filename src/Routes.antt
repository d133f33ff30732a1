-- ===== src/Routes.antt =====
-- crates/router/src/routes: the prefill and decode handlers.
pub mod Prefill
pub mod Logprobs
pub mod PdError
pub mod Pd
