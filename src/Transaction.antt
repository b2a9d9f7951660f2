-- ===== src/Transaction.antt =====
-- core/persistence/transaction/transaction.go: a transaction over a database interactor, with its
-- operations in flight, its hooks, and Execute around a callback. The world `W` holds what an
-- interactor and a hook change; interactors and their errors are parameters.
pub mod Calls
pub mod Atomic
pub mod Waiting
pub mod Tests
use go_anansi.Prelude.{ℕ, ◌+◌, Bool, true, false, Option, none, some, List, [], ◌∷◌, ◌++◌}
use go_anansi.Prelude.{◌==◌, if◌then◌else◌}
use go_anansi.Prelude.Int.{ℤ, pos, negsuc, ◌+ℤ◌}
use go_anansi.Prelude.Result.{Result, ok, err}

-- The part of `query.DatabaseInteractor` that is used: `I` are the interactors, `E` their errors.
pub record Database (W I E : Type 0) : Type 0 where
  pub has_transaction : I → W → Bool
  pub start_transaction : I → W → W × Result E I
  pub commit : I → W → W × Option E
  pub rollback : I → W → W × Option E

-- The errors with their causes.
pub data TxError (E : Type 0) : Type 0 where
  already_finalized no_active timeout : TxError E
  reported : E → TxError E
  failed_to_start : E → TxError E
  async_operation_failed : TxError E → TxError E
  failed : TxError E → TxError E → TxError E
  commit_failed : TxError E → TxError E
  commit_and_rollback_failed : TxError E → TxError E → TxError E

pub record Transaction (W I E : Type 0) : Type 0 where
  pub interactor : I
  pub pending : ℤ
  pub err_chan : Option E
  pub err_once : Bool
  pub committed : Bool
  pub on_commit_hooks : List (W → W)
  pub on_rollback_hooks : List (W → W)

abbrev pub none_pending : ℤ → Bool
none_pending (pos n) = n == 0
none_pending (negsuc n) = false

abbrev pub reported_error : {E : Type 0} → Option E → Option (TxError E)
reported_error none = none
reported_error (some e) = some (reported e)

-- A method of the transaction returns its new state, the world, and its error.
abbrev pub Done : Type 0 → Type 0 → Type 0 → Type 0
Done W I E = Transaction W I E × W × Option (TxError E)

abbrev pub run_each : {W : Type 0} → List (W → W) → W → W
run_each [] w = w
run_each (hook ∷ hooks) w = run_each hooks (hook w)

module _ {W I E : Type 0} where
  unfoldable pub new_transaction : I → Transaction W I E
  new_transaction i = record {
    interactor = i;
    pending = pos 0;
    err_chan = none;
    err_once = false;
    committed = false;
    on_commit_hooks = [];
    on_rollback_hooks = [];
  }

  unfoldable pub on_commit : (W → W) → Transaction W I E → Transaction W I E
  on_commit hook tx = record tx { on_commit_hooks = tx.on_commit_hooks ++ (hook ∷ []) }

  unfoldable pub on_rollback : (W → W) → Transaction W I E → Transaction W I E
  on_rollback hook tx = record tx { on_rollback_hooks = tx.on_rollback_hooks ++ (hook ∷ []) }

  unfoldable pub is_active : Transaction W I E → Bool
  is_active tx = if tx.committed then false else true

  -- The cleanup that is returned counts only if the second result is true.
  unfoldable pub add_operation : Transaction W I E → Transaction W I E × Bool
  add_operation tx =
      if tx.committed then (tx, false) else (record tx { pending = tx.pending +ℤ pos 1 }, true)

  -- the `errOnce.Do` of a cleanup
  abbrev pub report : Option E → Transaction W I E → Transaction W I E
  report none tx = tx
  report (some e) tx =
      if tx.err_once then tx else (record tx { err_once = true; err_chan = some e })

  unfoldable pub cleanup : Bool → Option E → Transaction W I E → Transaction W I E
  cleanup false e tx = tx
  cleanup true e tx =
      let reporting = report e tx in record reporting { pending = reporting.pending +ℤ negsuc 0 }

  unfoldable pub take_err : Transaction W I E → Transaction W I E × Option (TxError E)
  take_err tx = (record tx { err_chan = none }, reported_error (tx.err_chan))

  -- `cleanups` are the results that the operations in flight report while it waits, in their
  -- order; when there are no more, the context is cancelled.
  unfoldable pub wait_for_operations :
      List (Option E) → Transaction W I E → Transaction W I E × Option (TxError E)
  wait_for_operations [] tx = if none_pending (tx.pending) then take_err tx else (tx, some timeout)
  wait_for_operations (e ∷ cleanups) tx =
      let rest = wait_for_operations cleanups (cleanup true e tx) in
      if none_pending (tx.pending) then take_err tx else rest

  abbrev pub without_hooks : Transaction W I E → Transaction W I E
  without_hooks tx = record tx { on_commit_hooks = []; on_rollback_hooks = [] }

  unfoldable pub run_hooks : Bool → Transaction W I E → W → Transaction W I E × W
  run_hooks commit tx w =
      (without_hooks tx, run_each (if commit then tx.on_commit_hooks else tx.on_rollback_hooks) w)

  module _ (db : Database W I E) where
    unfoldable pub finalize : (I → W → W × Option E) → Transaction W I E → W → Done W I E
    finalize op tx w =
        if tx.committed
        then (tx, w, some already_finalized)
        else if db.has_transaction (tx.interactor) w
        then (let (after, e) = op (tx.interactor) w in
            (record tx { committed = true }, after, reported_error e))
        else (record tx { committed = true }, w, some no_active)

    abbrev pub after_commit : Done W I E → Done W I E
    after_commit (tx, w, none) =
        let (tx_done, after) = run_hooks true tx w in (tx_done, after, none)
    after_commit (tx, w, some e) = (tx, w, some e)

    unfoldable pub commit : Transaction W I E → W → Done W I E
    commit tx w = after_commit (finalize (db.commit) tx w)

    unfoldable pub rollback : Transaction W I E → W → Done W I E
    rollback tx w =
        let (tx_done, after, e) = finalize (db.rollback) tx w in
        let (tx_run, final) = run_hooks false tx_done after in (tx_run, final, e)

    -- Execute after its Rollback
    abbrev pub rolled_back : TxError E → Done W I E → W × Option (TxError E)
    rolled_back final (tx, w, none) = (w, some final)
    rolled_back final (tx, w, some e) = (w, some (failed e final))

    abbrev pub commit_rolled_back : TxError E → Done W I E → W × Option (TxError E)
    commit_rolled_back x (tx, w, none) = (w, some (commit_failed x))
    commit_rolled_back x (tx, w, some e) = (w, some (commit_and_rollback_failed x e))

    abbrev pub committed_or_back : Done W I E → W × Option (TxError E)
    committed_or_back (tx, w, none) = (w, none)
    committed_or_back (tx, w, some e) = commit_rolled_back e (rollback tx w)

    unfoldable pub settle : Transaction W I E → W → Option (TxError E) → W × Option (TxError E)
    settle tx w (some final) = rolled_back final (rollback tx w)
    settle tx w none = committed_or_back (commit tx w)

-- A callback gets the interactor and, by its context, the transaction; it returns a result beside
-- its error.
abbrev pub Callback : Type 0 → Type 0 → Type 0 → Type 0 → Type 0
Callback W I E R = I → Transaction W I E → W → Transaction W I E × W × R × Option E

pub record Outcome (W R E : Type 0) : Type 0 where
  pub world : W
  pub result : Option R
  pub error : Option (TxError E)

-- the outcome that the errors of the callback and of the operations ask for
abbrev pub final_error : {E : Type 0} → Option E → Option (TxError E) → Option (TxError E)
final_error (some e) operation = some (reported e)
final_error none none = none
final_error none (some e) = some (async_operation_failed e)

abbrev pub first_error : {E : Type 0} → Option E → Option (TxError E) → Option (TxError E)
first_error (some e) operation = some (reported e)
first_error none operation = operation

module _ {W I E R : Type 0} where
  -- `Execute` where the context holds a transaction.
  unfoldable pub execute_nested :
      Callback W I E R → Transaction W I E → W → Transaction W I E × W × R × Option E
  execute_nested callback tx w =
      let (tx_in, counts) = add_operation tx in
      let (tx_out, after, result, e) = callback (tx.interactor) tx_in w in
      (cleanup counts e tx_out, after, result, e)

  module _ (db : Database W I E) (callback : Callback W I E R) (cleanups : List (Option E)) where
    abbrev pub settled : R → W × Option (TxError E) → Outcome W R E
    settled result (w, e) = record { world = w; result = some result; error = e }

    -- `Execute` after the wait; `managed` if it started the transaction.
    abbrev pub after_wait :
        Bool → W → R → Option E → Transaction W I E × Option (TxError E) → Outcome W R E
    after_wait true w result e (tx, operation) =
        settled result (settle db tx w (final_error e operation))
    after_wait false w result e (tx, operation) = record {
      world = w;
      result = some result;
      error = first_error e operation;
    }

    abbrev pub after_call : Bool → Transaction W I E × W × R × Option E → Outcome W R E
    after_call managed (tx, w, result, e) =
        after_wait managed w result e (wait_for_operations cleanups tx)

    unfoldable pub execute_with : Bool → I → W → Outcome W R E
    execute_with managed i w = after_call managed (callback i (new_transaction i) w)

    abbrev pub after_start : W × Result E I → Outcome W R E
    after_start (w, ok i) = execute_with true i w
    after_start (w, err e) = record { world = w; result = none; error = some (failed_to_start e) }

    unfoldable pub execute : I → W → Outcome W R E
    execute i w =
        if db.has_transaction i w
        then execute_with false i w
        else after_start (db.start_transaction i w)
