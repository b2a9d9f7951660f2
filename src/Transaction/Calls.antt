-- ===== src/Transaction/Calls.antt =====
-- core/persistence/transaction/transaction.go under any interleaving of its methods: the database
-- is told once at most how the transaction ends.
use go_anansi.Prelude.{Bool, true, false, ◌≡◌, refl, arith, Option, none, some, List, [], ◌∷◌}
use go_anansi.Transaction.{
  Database, Transaction, on_commit, on_rollback, add_operation, cleanup, take_err, finalize,
  run_hooks, already_finalized,
}

module _ {W I E : Type 0} (db : Database W I E) where
  -- A call, by any goroutine, of what the mutex makes one step: `clean` is the cleanup of an
  -- operation, `ending` the finalize of Commit or Rollback, and `hooks` what they run after it.
  pub data Call : Type 0 where
    hook_commit hook_rollback : (W → W) → Call
    operate take : Call
    clean : Option E → Call
    ending hooks : Bool → Call

  abbrev pub ending_op : Bool → I → W → W × Option E
  ending_op true = db.commit
  ending_op false = db.rollback

  pub record State : Type 0 where
    pub tx : Transaction W I E
    pub world : W

  unfoldable pub step : Call → State → State
  step (hook_commit h) s = record s { tx = on_commit h s.tx }
  step (hook_rollback h) s = record s { tx = on_rollback h s.tx }
  step operate s = record s { tx = (add_operation s.tx).0 }
  step take s = record s { tx = (take_err s.tx).0 }
  step (clean e) s = record s { tx = cleanup true e s.tx }
  step (ending b) s =
      let (tx, w, e) = finalize db (ending_op b) s.tx s.world in record { tx = tx; world = w }
  step (hooks b) s = let (tx, w) = run_hooks b s.tx s.world in record { tx = tx; world = w }

  unfoldable pub steps : List Call → State → State
  steps [] s = s
  steps (c ∷ cs) s = steps cs (step c s)

  step_committed : (c : Call) (s : State) → s.tx.committed ≡ true → (step c s).tx.committed ≡ true
  unfolding step on_commit on_rollback add_operation take_err cleanup finalize run_hooks
  step_committed (hook_commit h) s e = e
  step_committed (hook_rollback h) s e = e
  step_committed operate s e = ground (arith, e)
  step_committed take s e = e
  step_committed (clean none) s e = e
  step_committed (clean (some x)) s e = ground (arith, e)
  step_committed (ending b) s e = ground (arith, e)
  step_committed (hooks b) s e = e

  steps_committed :
      (cs : List Call) (s : State) → s.tx.committed ≡ true → (steps cs s).tx.committed ≡ true
  unfolding steps
  steps_committed [] s e = e
  steps_committed (c ∷ cs) s e = steps_committed cs (step c s) (step_committed c s e)

  ending_committed : (b : Bool) (s : State) → (step (ending b) s).tx.committed ≡ true
  unfolding step finalize
  ending_committed b s = ground arith

  -- After one Commit or Rollback of a transaction, amid any calls of its methods before and after,
  -- a further finalize changes nothing, does not call the database, and reports that the
  -- transaction is finalized already.
  pub finalize_once :
      (before after : List Call) (b : Bool) (s : State) (op : I → W → W × Option E)
      → let end = steps after (step (ending b) (steps before s)) in
        finalize db op end.tx end.world ≡ (end.tx, end.world, some already_finalized)
  unfolding finalize
  finalize_once before after b s op =
      let told = step (ending b) (steps before s) in
      rw (steps_committed after told (ending_committed b (steps before s))) refl
