-- ===== src/Transaction/Atomic.antt =====
-- core/persistence/transaction/transaction.go, Execute: what the database is told, and what hooks
-- run, for each outcome of the callback and of the operations in flight.
use go_anansi.Prelude.{true, false, ◌≡◌, Option, List}
use go_anansi.Prelude.Result.{ok}
use go_anansi.Transaction.{
  Database, Transaction, TxError, Callback, new_transaction, settle, wait_for_operations,
  final_error, Outcome, settled,
}

module _ {W I E : Type 0} (db : Database W I E) where
  -- What Commit or Rollback does to a transaction that can still be ended.
  module _ (tx : Transaction W I E) (w : W) (open_tx : tx.committed ≡ false)
      (active : db.has_transaction tx.interactor w ≡ true) where
    closed : Transaction W I E
    closed = record tx { committed = true }

-- A run of Execute that starts a transaction, up to the end of the operations: the transaction is
-- still open, and the database has it.
pub record Run {W I E R : Type 0} (db : Database W I E) (callback : Callback W I E R)
    (cleanups : List (Option E)) (i : I) (w : W) : Type 0 where
  pub none_before : db.has_transaction i w ≡ false
  pub interactor : I
  pub begun : W
  pub started : db.start_transaction i w ≡ (begun, ok interactor)
  pub called_tx : Transaction W I E
  pub after : W
  pub result : R
  pub callback_error : Option E
  pub called :
      callback interactor (new_transaction interactor) begun
      ≡ (called_tx, after, result, callback_error)
  pub tx : Transaction W I E
  pub operation_error : Option (TxError E)
  pub waited : wait_for_operations cleanups called_tx ≡ (tx, operation_error)
  pub still_open : tx.committed ≡ false
  pub active : db.has_transaction tx.interactor after ≡ true

module _ {W I E R : Type 0} (db : Database W I E) (callback : Callback W I E R)
    (cleanups : List (Option E)) (i : I) (w : W) (r : Run db callback cleanups i w) where
  -- Execute goes on to settle the transaction.
  outcome : Outcome W R E
  outcome =
      settled db callback cleanups r.result
        (settle db r.tx r.after (final_error r.callback_error r.operation_error))
