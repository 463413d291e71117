-- ===== src/Tests.antt =====
-- Runs of the program on concrete data, and the theorems at concrete inputs.
pub mod Codec
pub mod Jobs
mod Frame
pub mod Auth
pub mod Headers
pub mod Endpoints
mod Sweep
pub mod Limits
pub mod Pdf
mod PdfMerge
mod KeySet
mod CoverPage
mod Startup
mod Forms
pub mod Schedule
mod Threads
mod Start
