-- ===== src/Transaction/Tests.antt =====
-- core/persistence/transaction/transaction.go: concrete runs. The world is the list of what
-- happened, the last first: 1 begins, 2 commits, 3 rolls back, 4 and 5 are the hooks, 6 the callback.
use go_anansi.Prelude.{ℕ, true, false, ◌≡◌, refl, Option, none, some, List, [], ◌∷◌, ◌==◌}
use go_anansi.Prelude.Int.{pos}
use go_anansi.Prelude.Result.{ok}
use go_anansi.Transaction.{
  Database, Transaction, Callback, new_transaction, on_commit, on_rollback, add_operation, finalize,
  cleanup, take_err, wait_for_operations, timeout, already_finalized,
}
use go_anansi.Transaction.Atomic.{Run}
use go_anansi.Transaction.Calls.{
  State, Call, step, steps, finalize_once, operate, clean, ending, hooks,
}
use go_anansi.Transaction.Waiting.{Holds, wait_returns, first_reported}

abbrev World : Type 0
World = List ℕ

abbrev with_commit : Option ℕ → Database World ℕ ℕ
with_commit e = record {
  has_transaction = λ i w. i == 1;
  start_transaction = λ i w. (1 ∷ w, ok 1);
  commit = λ i w. (2 ∷ w, e);
  rollback = λ i w. (3 ∷ w, none);
}

abbrev log : ℕ → World → World
log n w = n ∷ w

abbrev hooked : Transaction World ℕ ℕ → Transaction World ℕ ℕ
hooked tx = on_commit (log 4) (on_rollback (log 5) ((add_operation tx).0))

abbrev callback : Option ℕ → Callback World ℕ ℕ ℕ
callback e i tx w = (hooked tx, 6 ∷ w, 7, e)

abbrev opened : Transaction World ℕ ℕ
opened = record {
  interactor = 1;
  pending = pos 0;
  err_chan = none;
  err_once = false;
  committed = false;
  on_commit_hooks = log 4 ∷ [];
  on_rollback_hooks = log 5 ∷ [];
}

-- The operation that the callback left ends without an error.
run : (commits fails : Option ℕ) → Run (with_commit commits) (callback fails) (none ∷ []) 0 []
unfolding new_transaction on_commit on_rollback add_operation cleanup wait_for_operations take_err
run commits fails = record {
  none_before = refl;
  interactor = 1;
  begun = 1 ∷ [];
  started = refl;
  called_tx = record opened { pending = pos 1 };
  after = 6 ∷ 1 ∷ [];
  result = 7;
  callback_error = fails;
  called = refl;
  tx = opened;
  operation_error = none;
  waited = refl;
  still_open = refl;
  active = refl;
}

abbrev before : State (with_commit none)
before = record { tx = opened; world = [] }

abbrev before_end : List (Call (with_commit none))
before_end = operate ∷ clean none ∷ []

abbrev after_end : List (Call (with_commit none))
after_end = hooks true ∷ operate ∷ []

abbrev ended : State (with_commit none)
ended =
    steps (with_commit none) after_end
      (step (with_commit none) (ending true) (steps (with_commit none) before_end before))

finalize_once_example :
    finalize (with_commit none) (λ i w. (3 ∷ w, none)) ended.tx ended.world
    ≡ (ended.tx, ended.world, some already_finalized)
finalize_once_example =
    finalize_once (with_commit none) before_end after_end true before (λ i w. (3 ∷ w, none))

abbrev busy : Transaction World ℕ ℕ
busy = record opened { pending = pos 2 }

busy-Holds : Holds busy 2 none
busy-Holds = record { waiting = refl; held = refl; told = refl }

wait_times_out : (wait_for_operations (none ∷ []) busy).1 ≡ some timeout
unfolding first_reported
wait_times_out = wait_returns (none ∷ []) busy 2 none busy-Holds
