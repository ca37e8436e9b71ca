-- ===== src/Tests.antt =====
-- The theorems at concrete inputs, and runs of the definitions.
mod Servers
mod Provisions
mod Workers
mod Brokers
mod Requests
mod Duties
mod Bootstraps
