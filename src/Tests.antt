-- ===== src/Tests.antt =====
-- Runs of the model on small inputs, and the theorems at concrete data.
mod Data
mod SvcLoop
mod SvcRun
mod SvcThreads
mod SvcMachine
mod SvcHandler
mod Console
mod Goroutines
mod SvcTold
mod Clients
mod Mgr
mod Example
mod Program
mod Installing
mod Sources
