-- ===== src/Tests.antt =====
-- Tests of the definitions on concrete inputs, and the theorems applied at concrete inputs.
pub mod Data
mod GrantTests
mod StoreTests
mod BrokerTests
mod PassgenTests
mod AuditTests
mod IdTests
pub mod AppTests
mod AppLawTests
mod FillTests
mod WorkloadTests
