-- ===== src/Io.antt =====
-- What the program runs on: results, the file system, and the calls that it makes of `std`.
pub mod Outcome
pub mod Path
pub mod Error
pub mod System
pub mod Action
pub mod Float
pub mod Files
pub mod Triple
pub mod Returns
pub mod Quiet
pub mod Frame
pub mod Folders
