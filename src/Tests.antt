-- ===== src/Tests.antt =====
-- The theorems at concrete inputs, and runs of the definitions.
mod AuthorityTests
mod ClientTests
mod GenerateTests
mod ConfigTests
mod LoggerTests
mod MonitorTests
mod ProcessTests
mod ServerTests
mod SessionTests
mod SetupTests
mod TextTests
