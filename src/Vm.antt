-- ===== src/Vm.antt =====
-- The package vm: the metering of gas.
pub mod Gas
