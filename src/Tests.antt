-- ===== src/Tests.antt =====
-- Inputs on which the theorems' hypotheses hold, and what they give there.
mod Recorder
mod Pipeline
mod VehicleState
mod Rows
mod Archive
mod Services
mod Sessions
mod Intake
mod Hops
mod Dbc
