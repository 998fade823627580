-- ===== src/Examples/Sweeps.antt =====
-- A sweep of the worker in two rounds, and an entry that is read and swept up.
use knives.Prelude.{
  ℕ, zero, suc, ◌≡◌, ◌≢◌, ◌≤◌, ◌<◌, refl, sym, subst, true, List, [], ◌∷◌, some, All, inl, any,
  arith,
}
use knives.Worker.{Message, Worker}
use knives.Worker.Reclaim.{AutoClaim, IsScan, IsKept, reclaim_stale_entries, reclaim_ends}
use knives.Worker.Loop
use knives.Worker.Loop.{read_new_entries, nothing_lost}
use knives.Examples.Visits.{parsers, message, db}

abbrev entry : ℕ → Message
entry id = record message { id = id }

-- Entry 1, and from the next cursor entry 2.
abbrev claim : AutoClaim
claim rounds zero = some (entry 1 ∷ [], 2)
claim rounds (suc start) = some (entry 2 ∷ [], 0)

claim_advances :
    (rounds start : ℕ) (msgs : List Message) (next : ℕ)
    → claim rounds start ≡ some (msgs, next)
    → next ≢ 0
    → (start < next) × (next ≤ 2)
claim_advances rounds zero msgs next h more = let e : 2 ≡ next = cc in (omega arith, omega arith)
claim_advances rounds (suc start) msgs next h more = let e : 0 ≡ next = cc in absurd (more (sym e))

claim_entries :
    (rounds start : ℕ) (msgs : List Message) (next : ℕ)
    → claim rounds start ≡ some (msgs, next)
    → All (λ (m : Message). m ≡ entry m.id) msgs
claim_entries rounds zero msgs next h =
    let e : (entry 1 ∷ []) ≡ msgs = cc in subst (All (λ (m : Message). m ≡ entry m.id)) e (refl, tt)
claim_entries rounds (suc start) msgs next h =
    let e : (entry 2 ∷ []) ≡ msgs = cc in subst (All (λ (m : Message). m ≡ entry m.id)) e (refl, tt)

claim-IsScan : IsScan entry 2 claim
claim-IsScan = record { advances = claim_advances; entries = claim_entries }

abbrev waiting : Worker
waiting = record { db = db; pending = entry 1 ∷ entry 2 ∷ [] }

reclaim_ends_example :
    (w' : Worker) × (reclaim_stale_entries parsers claim 3 0 waiting ≡ some w')
    × IsKept parsers entry 2 w'
unfolding any
reclaim_ends_example = reclaim_ends parsers entry 2 claim claim-IsScan 2 waiting (inl refl)

-- The calls fail while the entry is read, and later they succeed.
abbrev failing_worker : Worker
failing_worker = record waiting { db = record db { faults = true ∷ true ∷ [] } }

abbrev recovered : Worker
recovered = record (read_new_entries parsers (entry 1 ∷ []) failing_worker) {
  db = record (read_new_entries parsers (entry 1 ∷ []) failing_worker).db { faults = [] };
}

nothing_lost_example : IsKept parsers entry 1 recovered
unfolding any
nothing_lost_example =
    nothing_lost parsers entry 1 (entry 1 ∷ []) failing_worker recovered (refl, tt) refl
      (Loop.next Loop.here
        (Loop.passes [] (read_new_entries parsers (entry 1 ∷ []) failing_worker)))
