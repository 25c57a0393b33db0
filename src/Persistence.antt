-- ===== src/Persistence.antt =====
-- libs/persistence/src: the repositories over MongoDB collections and the transaction manager.
pub mod Collection
pub mod Schemas
pub mod OutboxRepository
pub mod MessageRepository
pub mod Transactions
