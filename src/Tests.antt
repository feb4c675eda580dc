-- ===== src/Tests.antt =====
-- Runs of the components, and the theorems at concrete data.
pub mod Node
mod Settings
mod Provisioning
mod Restoring
mod Auditing
mod Moving
mod Migrating
mod Placing
mod Connecting
mod Scripting
mod Copying
mod Replacing
mod Sealing
mod Landing
mod Phasing
mod Printing
mod Repeating
mod Reading
mod Archiving
mod Travelling
mod Chunking
