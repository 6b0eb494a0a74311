-- ===== src/Wire.antt =====
-- src/wire: the frames that carry every request and response.
pub mod Api
pub mod Frame
mod Tests
