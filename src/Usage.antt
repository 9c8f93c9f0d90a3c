-- ===== src/Usage.antt =====
-- services/usageAdmission.ts and repositories/usageRepository.ts: holds on the capacity of a provider.
-- Costs and capacities are whole multiples of a hundred-thousandth of a percent, so that a token is
-- one unit.
pub mod Rows
pub mod Repository
pub mod Classify
pub mod Admission
pub mod Median
pub mod Totals
pub mod Bounds
mod Tests
