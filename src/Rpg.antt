-- ===== src/Rpg.antt =====
-- rpg: the graph of a repository's features, files and symbols, and the queries on it.
pub mod Graph
pub mod Explore
