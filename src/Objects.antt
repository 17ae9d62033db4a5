-- ===== src/Objects.antt =====
-- src/objects: the object table with its handles, and the shared rings.
pub mod Object
pub mod Ring
