-- ===== src/Tests.antt =====
-- Runs on concrete inputs: each theorem with hypotheses at values that meet them.
pub mod Bits
pub mod Frame
pub mod Doubles
pub mod Satellite
pub mod Ephemeris
pub mod Line
pub mod Word
pub mod Station
pub mod Glonass
pub mod Msm
pub mod Codes
pub mod Dispatch
pub mod Time
pub mod Unique
pub mod Weeks
