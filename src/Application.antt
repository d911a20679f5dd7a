-- ===== src/Application.antt =====
-- internal/application: the values and the policies that no provider owns.
pub mod Item
pub mod Policy
pub mod Identity
pub mod Failure
