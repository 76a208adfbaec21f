-- ===== src/Loadtest/Watch.antt =====
-- internal/loadtest/indexes.go: Watcher.Wait, which waits for documents to appear in the keyword index. A
-- point in time is a number of nanoseconds, `sub` is Time.Sub, and the answers of the index are a
-- parameter of each round. The map of what is pending is a list with distinct IDs. A round's answers are
-- recorded in the order of that list: another order of the workers changes only the order of the
-- samples, and which of several errors is the first. The poll interval and the number of workers, with
-- their defaults, change only the times.
pub mod Pending
pub mod Accounts
use near_real_time_hybrid_se.Common.{
  ℕ, Bool, true, false, ◌&&◌, not, List, [], ◌∷◌, Option, none, some, if◌then◌else◌,
}
use near_real_time_hybrid_se.Common.Int.{ℤ, pos}
use near_real_time_hybrid_se.Common.Bytes.{Bytes, bytes_eq}
use near_real_time_hybrid_se.Errors.{Err, is_some}
use near_real_time_hybrid_se.Cdc.Mapping.{Result, ok, err}
use near_real_time_hybrid_se.Loadtest.Stats.{Recorder, record_sample}

pub record Arrival : Type 0 where
  pub id : Bytes
  pub inserted : ℤ

-- pending[a.ID] = a.Inserted.
unfoldable pub put : Arrival → List Arrival → List Arrival
unfolding bytes_eq
put a [] = a ∷ []
put a (b ∷ bs) =
    let rest = put a bs in
    if bytes_eq b.id a.id then record b { inserted = a.inserted } ∷ bs else b ∷ rest

unfoldable pub pending_of : List Arrival → List Arrival → List Arrival
unfolding put
pending_of [] p = p
pending_of (a ∷ rest) p = pending_of rest (put a p)

unfoldable pub inserted_of : Bytes → List Arrival → ℤ
unfolding bytes_eq
inserted_of i [] = pos 0
inserted_of i (b ∷ bs) = let rest = inserted_of i bs in if bytes_eq b.id i then b.inserted else rest

-- delete(pending, id).
unfoldable pub remove : Bytes → List Arrival → List Arrival
unfolding bytes_eq
remove i [] = []
remove i (b ∷ bs) = let rest = remove i bs in if bytes_eq b.id i then bs else b ∷ rest

-- One round: which IDs the workers were asked about before the context ended, what the index answered,
-- whether the context was open when the answer was recorded, the time after the round, and what the
-- context says if it ended before the next tick.
pub record Round : Type 0 where
  pub asked : Bytes → Bool
  pub exists : Bytes → Result Bool
  pub is_open : Bytes → Bool
  pub seen_at : ℤ
  pub ended : Option Err

unfoldable pub next_err : Option Err → Bool → Err → Option Err
next_err first is_open x = if not (is_some first) && is_open then some x else first

-- What is recorded of the answer for one ID; `k` is the rest of the answers, from the first error so far.
abbrev pub after_answer :
    Bytes
    → Bool
    → (Option Err → List Bytes × Option Err)
    → Option Err
    → Result Bool
    → List Bytes × Option Err
unfolding next_err
after_answer i is_open k e (err x) = k (next_err e is_open x)
after_answer i is_open k e (ok true) = (i ∷ (k e).0, (k e).1)
after_answer i is_open k e (ok false) = k e

-- checkAll, from the first error so far: the IDs that were found, and the first error.
unfoldable pub check_all : Round → List Arrival → Option Err → List Bytes × Option Err
unfolding after_answer
check_all r [] e = ([], e)
check_all r (a ∷ rest) e =
    if r.asked a.id
    then after_answer a.id (r.is_open a.id) (check_all r rest) e (r.exists a.id)
    else check_all r rest e

pub record Watched : Type 0 where
  pub samples : Recorder
  pub last : Option ℤ
  pub pending : List Arrival

-- The loop over the IDs that were found.
unfoldable pub absorb : (ℤ → ℤ → ℤ) → ℤ → List Bytes → Watched → Watched
unfolding record_sample inserted_of remove
absorb sub t [] w = w
absorb sub t (i ∷ is) w = absorb sub t is (record {
  samples = record_sample (sub t (inserted_of i w.pending)) w.samples;
  last = some t;
  pending = remove i w.pending;
})

abbrev pub none_left : List Arrival → Bool
none_left [] = true
none_left (a ∷ rest) = false

-- Wait from its loop on; `none` if it needs more rounds than are given.
unfoldable pub wait_rounds : (ℤ → ℤ → ℤ) → List Round → Watched → Option (Watched × Option Err)
unfolding check_all absorb
wait_rounds sub [] w = if none_left w.pending then some (w, none) else none
wait_rounds sub (r ∷ rs) w =
    let (found, e) = check_all r w.pending none in
    let w' = absorb sub r.seen_at found w in
    let rest = wait_rounds sub rs w' in
    if none_left w.pending then some (w, none) else elim e [
      | some x ↦ some (w, some x)
      | none ↦
          if none_left w'.pending
          then some (w', none)
          else elim r.ended [ some x ↦ some (w', some x) | none ↦ rest ]
    ]

unfoldable pub watching : List Arrival → Watched
unfolding pending_of
watching arrivals = record { samples = []; last = none; pending = pending_of arrivals [] }

-- Watcher.Wait.
unfoldable pub wait : (ℤ → ℤ → ℤ) → List Round → List Arrival → Option (Watched × Option Err)
unfolding wait_rounds
wait sub rounds arrivals = wait_rounds sub rounds (watching arrivals)
