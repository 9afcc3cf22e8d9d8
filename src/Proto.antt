-- ===== src/Proto.antt =====
-- The wire protocol of src/common/proto.hpp and src/common/proto.cpp.
pub mod Wire
pub mod Writer
pub mod Reader
pub mod Codes
pub mod Limits
pub mod CellLib
pub mod Cells
pub mod Enums
pub mod Shapes
pub mod Handshake
pub mod Sessions
pub mod Terminals
pub mod Events
pub mod Images
pub mod Printing
pub mod SessionLists
pub mod Layout
pub mod Arrangements
pub mod State
pub mod Snapshots
pub mod Attaching
pub mod GridOps
pub mod Grid
pub mod Deltas
pub mod MessageType
pub mod Message
pub mod Carried
pub mod DecodeError
pub mod Codec
pub mod Frames
pub mod Runs
pub mod Tests
