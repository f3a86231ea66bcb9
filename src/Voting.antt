-- ===== src/Voting.antt =====
-- Voting keys: the key files (File), the folder that holds them (Folder), and the service that
-- decides when a new one is made (Service).
pub mod File
pub mod Folder
pub mod Service
