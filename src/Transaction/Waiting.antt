-- ===== src/Transaction/Waiting.antt =====
-- core/persistence/transaction/transaction.go, WaitForOperations: when it returns, and with which
-- error.
use go_anansi.Prelude.{
  ℕ, zero, suc, true, false, ◌≡◌, refl, arith, Option, none, some, List, [], ◌∷◌, length, take, leb,
  if◌then◌else◌, ◌∙◌, ap,
}
use go_anansi.Prelude.Int.{pos}
use go_anansi.Transaction.{
  Transaction, timeout, cleanup, take_err, wait_for_operations, reported_error, none_pending,
}

-- The first error of the results, in their order.
unfoldable pub first_reported : {E : Type 0} → List (Option E) → Option E
first_reported [] = none
first_reported (some e ∷ rest) = some e
first_reported (none ∷ rest) = first_reported rest

abbrev pub or_first : {E : Type 0} → Option E → List (Option E) → Option E
or_first none rest = first_reported rest
or_first (some e) rest = some e

abbrev or_error : {E : Type 0} → Option E → Option E → Option E
or_error none f = f
or_error (some e) f = some e

or_first_lem :
    {E : Type 0} (e f : Option E) (rest : List (Option E))
    → or_first (or_error e f) rest ≡ or_first e (f ∷ rest)
unfolding first_reported
or_first_lem none none rest = refl
or_first_lem none (some y) rest = refl
or_first_lem (some x) f rest = refl

module _ {W I E : Type 0} where
  -- `tx` holds `e` as the error to report, and knows whether it reported one.
  pub record Holds (tx : Transaction W I E) (n : ℕ) (e : Option E) : Type 0 where
    pub waiting : tx.pending ≡ pos n
    pub held : tx.err_chan ≡ e
    pub told : tx.err_once ≡ (elim e [ none ↦ false | some x ↦ true ])

  cleanup-Holds :
      (tx : Transaction W I E) (n : ℕ) (e f : Option E)
      → Holds tx (suc n) e
      → Holds (cleanup true f tx) n (or_error e f)
  unfolding cleanup
  cleanup-Holds tx n none none h = record {
    waiting = ground (arith, h);
    held = h.held;
    told = h.told;
  }
  cleanup-Holds tx n none (some y) h = record {
    waiting = ground (arith, h);
    held = ground (arith, h);
    told = ground (arith, h);
  }
  cleanup-Holds tx n (some x) none h = record {
    waiting = ground (arith, h);
    held = h.held;
    told = h.told;
  }
  cleanup-Holds tx n (some x) (some y) h = record {
    waiting = ground (arith, h);
    held = ground (arith, h);
    told = ground (arith, h);
  }

  pub wait_returns :
      (results : List (Option E)) (tx : Transaction W I E) (n : ℕ) (e : Option E)
      → Holds tx n e
      → (wait_for_operations results tx).1 ≡ (
          if leb n (length results)
          then reported_error (or_first e (take n results))
          else some timeout)
  unfolding wait_for_operations take_err first_reported
  wait_returns [] tx zero none h = rw (h.waiting, h.held) refl
  wait_returns [] tx zero (some x) h = rw (h.waiting, h.held) refl
  wait_returns [] tx (suc n) e h = rw h.waiting (ground arith)
  wait_returns (f ∷ results) tx zero none h = rw (h.waiting, h.held) (ground arith)
  wait_returns (f ∷ results) tx zero (some x) h = rw (h.waiting, h.held) (ground arith)
  wait_returns (f ∷ results) tx (suc n) e h =
      let busy : none_pending tx.pending ≡ false = ap none_pending h.waiting ∙ ground arith in
      let same : leb (suc n) (suc (length results)) ≡ leb n (length results) = ground arith in
      rw (busy, same, ← or_first_lem e f (take n results))
        (wait_returns results (cleanup true f tx) n (or_error e f) (cleanup-Holds tx n e f h))
