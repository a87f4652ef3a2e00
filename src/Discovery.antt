-- ===== src/Discovery.antt =====
-- pipeline/stage1a_static_analysis.py: the places of a C or C++ source tree that name or create
-- threads.
pub mod Files
pub mod Entry
pub mod Macros
pub mod Setters
pub mod Names
pub mod Calls
pub mod Report
