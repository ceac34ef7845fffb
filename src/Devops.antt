-- ===== src/Devops.antt =====
-- devops/deploy.go: the applications of a directory of configurations, and their deployment.
pub mod Tree
pub mod Deploy
pub mod Command
pub mod Installs
pub mod Commits
mod Tests
