-- ===== src/Worker/Loop.antt =====
-- `run` of cmd/worker/consumer.go: new entries are read and processed, and stale ones swept up.
use knives.Prelude.{
  ℕ, suc, ◌≡◌, inl, inr, subst, Bool, true, ◌==◌, List, [], ◌∷◌, ◌++◌, some, any, All, arith,
}
use knives.Worker.{Message, Parsers, Worker, process_batch}
use knives.Worker.Reclaim.{
  AutoClaim, IsScan, IsKept, reclaim_stale_entries, reclaim_ends, process_batch-IsKept,
}

-- XREADGROUP hands new entries over, which are pending from then on; a call that fails, or runs out
-- of its time, hands over none.
unfoldable pub read_new_entries : Parsers → List Message → Worker → Worker
read_new_entries p msgs w = process_batch p msgs (record w { pending = msgs ++ w.pending })

-- What the loop does, whatever entries come and whatever calls are going to fail: those of a
-- worker that stops in the middle of a batch all do.
pub data WorkerStep (p : Parsers) (entry : ℕ → Message) : Worker → Worker → Type 0 where
  reads :
      (msgs : List Message) (w : Worker)
      → All (λ (m : Message). m ≡ entry m.id) msgs
      → WorkerStep p entry w (read_new_entries p msgs w)
  sweeps :
      (last : ℕ) (claim : AutoClaim) (w v : Worker)
      → IsScan entry last claim
      → reclaim_stale_entries p claim (suc last) 0 w ≡ some v
      → WorkerStep p entry w v
  passes :
      (bs : List Bool) (w : Worker)
      → WorkerStep p entry w (record w { db = record w.db { faults = bs } })

pub data WorkerSteps (p : Parsers) (entry : ℕ → Message) (w : Worker) : Worker → Type 0 where
  here : WorkerSteps p entry w w
  next : {v u : Worker} → WorkerSteps p entry w v → WorkerStep p entry v u → WorkerSteps p entry w u

any-left : (q : Message → Bool) (xs ys : List Message) → any q xs ≡ true → any q (xs ++ ys) ≡ true
unfolding any
any-left q [] ys h = cc
any-left q (x ∷ xs) ys h = ground (arith, any-left q xs ys)

any-right : (q : Message → Bool) (xs ys : List Message) → any q ys ≡ true → any q (xs ++ ys) ≡ true
unfolding any
any-right q [] ys h = h
any-right q (x ∷ xs) ys h = ground (arith, any-right q xs ys h)

module _ (p : Parsers) (entry : ℕ → Message) (id : ℕ) where
  more_pending :
      (msgs : List Message) (w : Worker)
      → IsKept p entry id w
      → IsKept p entry id (record w { pending = msgs ++ w.pending })
  more_pending msgs w (inl h) = inl (any-right (λ m. m.id == id) msgs w.pending h)
  more_pending msgs w (inr h) = inr h

  step-IsKept : {w v : Worker} → WorkerStep p entry w v → IsKept p entry id w → IsKept p entry id v
  unfolding read_new_entries
  step-IsKept (reads msgs w known) h =
      process_batch-IsKept p entry id msgs (record w { pending = msgs ++ w.pending }) known
        (more_pending msgs w h)
  step-IsKept (sweeps last claim w v scan ended) h =
      let (w', same, kept) = reclaim_ends p entry last claim scan id w h in
      let it : w' ≡ v = cc in subst (IsKept p entry id) it kept
  step-IsKept (passes bs w) h = h

  steps-IsKept :
      {w v : Worker} → WorkerSteps p entry w v → IsKept p entry id w → IsKept p entry id v
  steps-IsKept here h = h
  steps-IsKept (next steps step) h = step-IsKept step (steps-IsKept steps h)

  -- An entry that is read is never lost: after whatever batches and sweeps follow, with whatever
  -- calls failing, it waits to be acknowledged, or every event that can be parsed of it is
  -- recorded.
  pub nothing_lost :
      (msgs : List Message) (w v : Worker)
      → All (λ (m : Message). m ≡ entry m.id) msgs
      → any (λ (m : Message). m.id == id) msgs ≡ true
      → WorkerSteps p entry (read_new_entries p msgs w) v
      → IsKept p entry id v
  unfolding read_new_entries
  nothing_lost msgs w v known read steps = steps-IsKept steps (
      process_batch-IsKept p entry id msgs (record w { pending = msgs ++ w.pending }) known
        (inl (any-left (λ m. m.id == id) msgs w.pending read)))
