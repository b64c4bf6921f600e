-- ===== src/Tests.antt =====
-- Runs of the definitions, and the theorems at concrete inputs.
mod EptRuns
mod FuzzerRuns
mod DeviceRuns
mod DriverRuns
mod VmmRuns
mod ExitRuns
mod VmRuns
mod InitRuns
mod LogRuns
