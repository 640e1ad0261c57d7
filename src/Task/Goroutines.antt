-- ===== src/Task/Goroutines.antt =====
-- Calls of `Do` that overlap, as the atomic steps of any number of goroutines: the two tests of the
-- backoff, the semaphore `sem`, `lockFor` with its map of mutexes, and the mutexes.
use metalwatch.Base.{
  ℕ, suc, ◌+◌, ◌-◌, ◌<◌, ◌≡◌, ◌≢◌, String, Bool, true, false, none, some, List, [], ◌∷◌, ◌++◌, All,
}
use metalwatch.Base.Int.{pos_part}
use metalwatch.Base.Clock.{Time}
use metalwatch.Base.Map.{Map, lookup, insert}
use metalwatch.Task.{Pool, check_backoff, record_result}

-- The map `locks`, and how many mutexes have been made; a mutex is known by its number.
pub record Mutexes : Type 0 where
  pub locks : Map ℕ
  pub made : ℕ

-- The mutex of a target, which is made on first use.
unfoldable pub lock_for : Mutexes → String → Mutexes × ℕ
unfolding lookup insert
lock_for m target = elim (lookup target m.locks) [
  | some l ↦ (m, l)
  | none ↦ (record { locks = insert target m.made m.locks; made = suc m.made }, m.made)
]

-- A goroutine with the mutex that `lockFor` gave it.
pub record Locker : Type 0 where
  pub target : String
  pub lock : ℕ

-- A goroutine that holds its mutex; `running` once the second test has passed.
pub record Holder : Type 0 where
  pub by : Locker
  pub running : Bool

abbrev pub idle : Locker → Holder
idle w = record { by = w; running = false }

abbrev pub busy : Locker → Holder
busy w = record { by = w; running = true }

-- `taken` is the number of tokens in the channel `sem`; `waiting` send to it, `admitted` have a token
-- and call `lockFor` next, `queued` are in `lock.Lock()`, and `leaving` have unlocked and not given
-- their token back.
pub record Sys : Type 0 where
  pub pool : Pool
  pub mutexes : Mutexes
  pub taken : ℕ
  pub waiting : List String
  pub admitted : List String
  pub queued : List Locker
  pub holders : List Holder
  pub leaving : ℕ

abbrev pub capacity : Sys → ℕ
capacity s = pos_part s.pool.opt.concurrency

pub data Step (s : Sys) : Sys → Type 0 where
  turned_away :
      (t : String) (now : Time)
      → (check_backoff s.pool t now).1 ≡ true
      → Step s (record s { pool = (check_backoff s.pool t now).0 })
  enters :
      (t : String) (now : Time)
      → (check_backoff s.pool t now).1 ≡ false
      → Step s (record s { pool = (check_backoff s.pool t now).0; waiting = t ∷ s.waiting })
  cancels :
      (t : String) (before after : List String)
      → s.waiting ≡ before ++ t ∷ after
      → Step s (record s { waiting = before ++ after })
  takes_token :
      (t : String) (before after : List String)
      → s.waiting ≡ before ++ t ∷ after
      → s.taken < capacity s
      → Step s
          (record s { waiting = before ++ after; taken = s.taken + 1; admitted = t ∷ s.admitted })
  asks :
      (t : String) (before after : List String)
      → s.admitted ≡ before ++ t ∷ after
      → Step s (record s {
        mutexes = (lock_for s.mutexes t).0;
        admitted = before ++ after;
        queued = record { target = t; lock = (lock_for s.mutexes t).1 } ∷ s.queued;
      })
  locks :
      (w : Locker) (before after : List Locker)
      → s.queued ≡ before ++ w ∷ after
      → All (λ (h : Holder). h.by.lock ≢ w.lock) s.holders
      → Step s (record s { queued = before ++ after; holders = idle w ∷ s.holders })
  starts :
      (w : Locker) (now : Time) (before after : List Holder)
      → s.holders ≡ before ++ idle w ∷ after
      → (check_backoff s.pool w.target now).1 ≡ false
      → Step s (record s {
        pool = (check_backoff s.pool w.target now).0;
        holders = before ++ busy w ∷ after;
      })
  gives_up :
      (w : Locker) (now : Time) (before after : List Holder)
      → s.holders ≡ before ++ idle w ∷ after
      → (check_backoff s.pool w.target now).1 ≡ true
      → Step s (record s {
        pool = (check_backoff s.pool w.target now).0;
        holders = before ++ after;
        leaving = s.leaving + 1;
      })
  finishes :
      (w : Locker) (now : Time) (succeeded : Bool) (before after : List Holder)
      → s.holders ≡ before ++ busy w ∷ after
      → Step s (record s {
        pool = record_result s.pool w.target succeeded now;
        holders = before ++ after;
        leaving = s.leaving + 1;
      })
  gives_token : 0 < s.leaving → Step s (record s { taken = s.taken - 1; leaving = s.leaving - 1 })

pub data Reach (s : Sys) : Sys → Type 0 where
  here : Reach s s
  next : {t u : Sys} → Reach s t → Step t u → Reach s u

unfoldable pub start : Pool → Sys
start p = record {
  pool = p;
  mutexes = record { locks = []; made = 0 };
  taken = 0;
  waiting = [];
  admitted = [];
  queued = [];
  holders = [];
  leaving = 0;
}
