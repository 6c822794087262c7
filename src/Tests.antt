-- ===== src/Tests.antt =====
-- Runs of the modelled code on small inputs.
mod Names
mod Levels
mod Constraints
mod Terms
mod Contexts
mod Containers
mod Machines
mod Universes
mod Declarations
