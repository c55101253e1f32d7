-- ===== src/Tests.antt =====
-- Runs of the model on small inputs: what the definitions compute, and the theorems applied.
pub mod Hosts
mod Threads
mod Reserving
mod ServerParser
mod Client
mod Agreement
mod Distribute
mod Sending
mod Database
mod Configs
mod Main
mod Registry
mod Shutdown
mod Vacancy
mod Works
