-- ===== src/Containers.antt =====
-- What the code uses of the standard containers: `std::unordered_map` (Map), `std::list` with
-- stable iterators (NodeList), and the pair of a list and an index into it that most tables of the
-- code keep (Indexed).
pub mod Map
pub mod NodeList
pub mod Indexed
