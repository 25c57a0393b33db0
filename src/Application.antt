-- ===== src/Application.antt =====
-- libs/application/src: the use cases.
pub mod Cursor
pub mod CreateMessage
pub mod ListMessages
pub mod SearchMessages
