-- ===== src/Examples.antt =====
-- Concrete inputs for the theorems: a small policy, packets, and the parameters of the model.
mod Data
mod Tables
mod Policy
mod Loop
mod Escalation
mod Responses
mod Reviews
mod Signatures
