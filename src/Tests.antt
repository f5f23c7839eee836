-- ===== src/Tests.antt =====
-- Runs of the model on concrete inputs, and instances of the theorems.
mod Database
mod Cleanup
mod Dumps
mod Interleaving
mod Collection
mod Attributes
mod Revocations
mod Stores
mod Sessions
mod Certificates
