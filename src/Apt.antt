-- ===== src/Apt.antt =====
-- internal/apt: control paragraphs, packages, manifests, the Release file and their publication.
pub mod Control
pub mod Dependency
pub mod Package
pub mod Render
pub mod Manifest
pub mod Artifacts
pub mod Release
pub mod Publish
mod Tests
