-- ===== src/Tests.antt =====
-- Concrete runs of web/src/store/image-conversations.ts and web/src/app/image/page.tsx.
pub mod Data
pub mod Storage
pub mod Tasks
pub mod Pages
pub mod Queues
pub mod Sessions
pub mod Configurations
pub mod Tables
pub mod Managers
pub mod Viewer
pub mod Cards
