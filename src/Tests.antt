-- ===== src/Tests.antt =====
-- Runs of the model on small machines, trees and texts. No code of the repository is modelled here.
pub mod Machine
pub mod State
pub mod Files
pub mod Devices
pub mod Folder
pub mod Applying
pub mod Esp
pub mod Grub
pub mod Shell
pub mod Configs
pub mod Tasks
pub mod Settling
pub mod Lasting
pub mod Interleaved
pub mod Digests
pub mod Installing
pub mod Migrating
