-- ===== src/Tests.antt =====
-- Concrete inputs: tests of the model, and the theorems applied to them.
mod Addresses
mod Locations
mod Samples
mod Fixes
mod Traces
mod Analyses
mod Repairs
mod Stacks
mod Generators
mod Builds
mod Flushes
mod Flows
mod Graphs
mod Between
mod Stripped
mod Removals
