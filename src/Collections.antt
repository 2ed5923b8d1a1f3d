-- ===== src/Collections.antt =====
-- src/collections: the containers of the `collections` feature.
pub mod Key
pub mod ArrayVec
pub mod SmallVec
pub mod SlotMap
pub mod SecondaryMap
mod Examples
