-- ===== src/Gem.antt =====
-- gempass/SporkUnrollPass.cpp, the pass that unrolls by LLVM's own count. Children: the loop of a marker
-- (Marker), its progress store (Progress), the count (Decide), the guard (Guard), the batched loop
-- (Batched), the validation (Form), and the factors of the sites (Driver).
pub mod Guard
pub mod Progress
pub mod Decide
pub mod Batched
pub mod Driver
pub mod Marker
pub mod Form
