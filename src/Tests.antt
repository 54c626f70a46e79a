-- ===== src/Tests.antt =====
-- Runs of the definitions on concrete inputs, and the theorems at inputs that meet their hypotheses.
mod Numbers
mod Offers
mod Transfers
mod Routing
mod Suppression
mod Downloads
mod Tickets
mod Storage
mod Submission
mod Rotation
mod Nodes
mod Peers
mod Arrivals
mod Proofs
