-- ===== src/Examples.antt =====
-- Runs of the models on concrete inputs, where the theorems' hypotheses hold.
mod Documents
mod Tickets
mod Tokens
mod Connections
mod Limits
mod Names
mod Bearers
mod Brokers
mod Copies
mod Children
