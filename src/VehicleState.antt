-- ===== src/VehicleState.antt =====
-- services/vehicle_state: the service that regroups the samples of a frame from six topics, writes
-- a frame's rows once it is complete or can no longer grow, and stores its reading positions.
pub mod Kind
pub mod Snapshot
pub mod Frames
pub mod Roles
pub mod Rows
pub mod Registry
pub mod Store
pub mod Loop
