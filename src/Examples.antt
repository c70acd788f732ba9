-- ===== src/Examples.antt =====
-- Runs of the modelled code at concrete inputs, and the theorems at such inputs.
mod Slots
mod Dashboard
mod Registry
mod Broker
mod Sse
mod Response
mod Exec
mod Context
mod Waiting
mod Gateway
mod Messaging
mod Agents
mod Retro
