-- ===== src/Persistence/Transactions.antt =====
-- libs/persistence/src/transactions/mongoose-transaction.manager.ts. The driver's sessions are a
-- parameter.
use message_management_api.Prelude.{◌≡◌, ◌⊎◌}
use message_management_api.Effects.{Io, ok, err, Exception, finally_await, ◌>>=◌}

pub record Connection (W A : Type 0) : Type 0 where
  pub start_session : Io W (Unit {0})
  -- `session.withTransaction(operation)`.
  pub with_transaction : Io W A → Io W A
  pub end_session : Io W (Unit {0})

unfoldable pub with_transaction : {W A : Type 0} → Connection W A → Io W A → Io W A
with_transaction connection operation = do
  session ← connection.start_session
  finally_await (connection.with_transaction operation) connection.end_session

-- What the driver documents, on the part of the world that the transaction protects: a transaction
-- that returns has committed one run of the operation. One that throws was aborted, or the outcome of
-- its commit is unknown: then one successful run of the operation may have been committed.
pub record IsAtomic {W A V : Type 0} (connection : Connection W A) (view : W → V) : Type 0 where
  pub start : (w : W) → view (connection.start_session w).1 ≡ view w
  pub commit :
      (operation : Io W A) (w : W) (a : A)
      → (connection.with_transaction operation w).0 ≡ ok a
      → (w₀ : W) × (view w₀ ≡ view w)
        × ((operation w₀).0 ≡ ok a)
        × (view (connection.with_transaction operation w).1 ≡ view (operation w₀).1)
  pub abort :
      (operation : Io W A) (w : W) (e : Exception)
      → (connection.with_transaction operation w).0 ≡ err e
      → (view (connection.with_transaction operation w).1 ≡ view w)
        ⊎ ((a : A) × (w₀ : W) × (view w₀ ≡ view w)
            × ((operation w₀).0 ≡ ok a)
            × (view (connection.with_transaction operation w).1 ≡ view (operation w₀).1))
  pub finish : (w : W) → view (connection.end_session w).1 ≡ view w
