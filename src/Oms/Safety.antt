-- ===== src/Oms/Safety.antt =====
-- No round of the parser reads behind the bytes that it has, and every round keeps the shape.
mod Calls
mod Fields
mod Header
mod Arguments
mod Tags
mod Stages
pub mod Step
pub mod Arrival
