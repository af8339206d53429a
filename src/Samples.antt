-- ===== src/Samples.antt =====
-- The algorithms of src/test.hpp: the lowest common ancestor of two tree nodes, the length of a
-- number in bits, and the turn of a square.
pub mod Ancestor
pub mod Length
pub mod Rotation
