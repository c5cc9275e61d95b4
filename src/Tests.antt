-- ===== src/Tests.antt =====
-- The theorems at concrete inputs, and runs of the programs on small inputs.
mod NetTests
mod StreamTests
mod DeliveryTests
mod ProcessTests
mod IpcTests
mod UvcTests
mod SyncTests
mod LogTests
mod EventTests
mod SemTests
