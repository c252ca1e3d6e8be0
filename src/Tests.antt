-- ===== src/Tests.antt =====
-- Concrete inputs: the program run on them, and the theorems applied to them.
mod Samples
mod States
mod Services
mod Checking
mod Predicting
mod Alerting
mod Monitored
mod Operating
mod Bridging
mod Stopping
mod Commanding
mod Serving
mod Subscribing
mod Making
