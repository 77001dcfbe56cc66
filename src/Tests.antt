-- ===== src/Tests.antt =====
-- Small inputs for every part of the program, and the theorems at those inputs.
pub mod Dialing
pub mod Managed
pub mod Querying
pub mod Running
pub mod Samples
pub mod Collecting
pub mod Converting
pub mod Requesting
pub mod Serving
pub mod Scraping
