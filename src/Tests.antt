-- ===== src/Tests.antt =====
-- Concrete inputs, and the theorems of the development at them.
mod Samples
mod Policies
mod Caches
mod Server
mod Launch
mod Discovery
mod Roles
mod Front
mod Logs
mod Merge
mod Pd
mod Sglang
mod Vllm
mod Startup
mod Running
mod Service
