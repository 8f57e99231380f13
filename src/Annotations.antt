-- ===== src/Annotations.antt =====
-- annotation/annotation/annotations/main.py: the revisions of the annotations of a file, and what is
-- read from them.
pub mod Types
pub mod Accumulate
pub mod Pages
pub mod Tables
pub mod Save
pub mod Request
pub mod Post
pub mod Read
pub mod Handlers
