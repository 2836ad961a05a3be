-- ===== src/Tests.antt =====
-- Runs of the model at concrete inputs.
mod Breakers
mod Proxies
mod Budgets
mod Streams
mod Gates
mod Configs
mod Apps
