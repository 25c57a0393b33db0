-- ===== src/Cli.antt =====
-- apps/cli/src: the maintenance commands.
pub mod Options
pub mod OutboxMaintenance
pub mod EsReindex
pub mod DlqRedrive
pub mod Commands
pub mod Output
