-- ===== src/Tests.antt =====
-- Runs of the modelled code at small inputs, and the properties applied there, by component.
mod MemMam
mod Objection
mod Phase
mod RegField
mod Report
mod Resource
mod Reg
mod Event
mod RegMap
mod Factory
mod Sequencer
mod Packer
