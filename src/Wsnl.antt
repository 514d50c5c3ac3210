-- ===== src/Wsnl.antt =====
-- The library of stream nodes, wavelet/src/wsnl/. A cycle function takes what it borrows
-- from its parents and the node's own data, and gives its answer and the data that it leaves.
pub mod Bootstrap
pub mod Logic
pub mod Transform
pub mod Time
pub mod Util
pub mod Switch
pub mod Route
