-- ===== src/Document.antt =====
-- src/pyinfrabox/infrabox/__init__.py: the validator of an infrabox.json file.
pub mod Parts
pub mod Jobs
pub mod Validate
pub mod Shape
pub mod Parents
pub mod Order
