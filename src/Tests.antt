-- ===== src/Tests.antt =====
-- Runs at concrete inputs, and the theorems at inputs that meet their hypotheses.
mod Grub
mod Manager
mod Uefi
mod Core
mod Menu
mod Uki
mod Host
mod Snapshots
mod Loader
mod Interface
