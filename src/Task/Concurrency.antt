-- ===== src/Task/Concurrency.antt =====
-- What holds of calls of `Do` that overlap, in every interleaving.
use metalwatch.Base.{
  ℕ, ◌+◌, ◌≤◌, ◌≡◌, refl, ap, subst, ◌≢◌, ◌∙◌, String, Bool, some, List, [], ◌∷◌, ◌++◌, arith, All,
  All-map, All-without, All-there, All-swap, length, length-without, eq_iff,
}
use metalwatch.Base.Int.{pos_part}
use metalwatch.Base.Clock.{Time}
use metalwatch.Base.Map.{lookup, lookup-insert}
use metalwatch.Task.Goroutines.{
  Mutexes, lock_for, Locker, Holder, idle, busy, Sys, Step, turned_away, enters, cancels,
  takes_token, asks, locks, starts, gives_up, finishes, gives_token, Reach, here, next, start,
}
use metalwatch.Task.{Options, Pool, check_backoff, record_result}

-- No two goroutines hold the mutex of one target.
abbrev pub Distinct : List Holder → Type 0
Distinct [] = Unit {0}
Distinct (h ∷ hs) = All (λ (g : Holder). g.by.target ≢ h.by.target) hs × Distinct hs

-- The goroutines past the semaphore.
abbrev pub inside : Sys → ℕ
inside s = length s.admitted + length s.queued + length s.holders + s.leaving

-- The mutex is the one that the map has for the target.
abbrev Known : Mutexes → Locker → Type 0
Known m w = lookup w.target m.locks ≡ some w.lock

pub record Inv (opt : Options) (s : Sys) : Type 0 where
  pub same_opt : s.pool.opt ≡ opt
  pub counted : s.taken ≡ inside s
  pub bounded : s.taken ≤ pos_part opt.concurrency
  pub queued_known : All (Known s.mutexes) s.queued
  pub holders_known : All (λ (h : Holder). Known s.mutexes h.by) s.holders
  pub serial : Distinct s.holders

-- `lockFor` answers what the map has from then on.
lock_for-Known :
    (m : Mutexes) (t : String) → lookup t (lock_for m t).0.locks ≡ some (lock_for m t).1
unfolding lock_for
lock_for-Known m t = ground (arith, lookup-insert t t m.made m.locks, eq_iff t t)

-- No mutex that is in the map is put in place of by another.
lock_for-keeps : (m : Mutexes) (t : String) (w : Locker) → Known m w → Known (lock_for m t).0 w
unfolding lock_for
lock_for-keeps m t w k =
    ground (arith, k, lookup-insert t w.target m.made m.locks, eq_iff t w.target)

-- Two goroutines with one target have one mutex.
other_mutex-other_target :
    (m : Mutexes) (v w : Locker) → Known m v → Known m w → v.lock ≢ w.lock → v.target ≢ w.target
other_mutex-other_target m v w kv kw n e =
    n (ground (arith, kv, kw, ap (λ (t : String). lookup t m.locks) e))

others-Distinct :
    (m : Mutexes) (w : Locker) (hs : List Holder)
    → Known m w
    → All (λ (h : Holder). Known m h.by) hs
    → All (λ (h : Holder). h.by.lock ≢ w.lock) hs
    → All (λ (h : Holder). h.by.target ≢ w.target) hs
others-Distinct m w [] k ks n = tt
others-Distinct m w (h ∷ hs) k ks n =
    (other_mutex-other_target m h.by w ks.0 k n.0, others-Distinct m w hs k ks.1 n.1)

Distinct-without :
    (before after : List Holder) (h : Holder)
    → Distinct (before ++ h ∷ after)
    → Distinct (before ++ after)
Distinct-without [] after h d = d.1
Distinct-without (b ∷ before) after h d = (
  All-without (λ (g : Holder). g.by.target ≢ b.by.target) before after h d.0,
  Distinct-without before after h d.1,
)

Distinct-starts :
    (before after : List Holder) (w : Locker)
    → Distinct (before ++ idle w ∷ after)
    → Distinct (before ++ busy w ∷ after)
Distinct-starts [] after w d = d
Distinct-starts (b ∷ before) after w d = (
  All-swap (λ (g : Holder). g.by.target ≢ b.by.target) before after (idle w) (busy w) (λ x. x) d.0,
  Distinct-starts before after w d.1,
)

check_backoff-opt : (p : Pool) (t : String) (now : Time) → (check_backoff p t now).0.opt ≡ p.opt
unfolding check_backoff
check_backoff-opt p t now = ground arith

record_result-opt :
    (p : Pool) (t : String) (b : Bool) (now : Time) → (record_result p t b now).opt ≡ p.opt
unfolding record_result
record_result-opt p t b now = ground arith

Step-Inv : {s u : Sys} (opt : Options) → Step s u → Inv opt s → Inv opt u
Step-Inv {s} opt (turned_away t now h) v = ground (arith, check_backoff-opt s.pool t now)
Step-Inv {s} opt (enters t now h) v = ground (arith, check_backoff-opt s.pool t now)
Step-Inv {s} opt (cancels t before after e) v = ground arith
Step-Inv {s} opt (takes_token t before after e h) v = ground arith
Step-Inv {s} opt (asks t before after e) v = record {
  same_opt = v.same_opt;
  counted = omega (arith, v.counted, ap length e, length-without before after t);
  bounded = v.bounded;
  queued_known = (
    lock_for-Known s.mutexes t,
    All-map s.queued (λ w k. lock_for-keeps s.mutexes t w k) v.queued_known,
  );
  holders_known = All-map s.holders (λ h k. lock_for-keeps s.mutexes t h.by k) v.holders_known;
  serial = v.serial;
}
Step-Inv {s} opt (locks w before after e free) v =
    let known = subst (All (Known s.mutexes)) e v.queued_known in
    let is_known = All-there (Known s.mutexes) before after w known in
    record {
      same_opt = v.same_opt;
      counted = omega (arith, v.counted, ap length e, length-without before after w);
      bounded = v.bounded;
      queued_known = All-without (Known s.mutexes) before after w known;
      holders_known = (is_known, v.holders_known);
      serial = (others-Distinct s.mutexes w s.holders is_known v.holders_known free, v.serial);
    }
Step-Inv {s} opt (starts w now before after e h) v = record {
  same_opt = check_backoff-opt s.pool w.target now ∙ v.same_opt;
  counted = omega (
    arith,
    v.counted,
    ap length e,
    length-without before after (idle w),
    length-without before after (busy w),
  );
  bounded = v.bounded;
  queued_known = v.queued_known;
  holders_known =
      All-swap (λ (g : Holder). Known s.mutexes g.by) before after (idle w) (busy w) (λ x. x)
        (subst (All (λ (g : Holder). Known s.mutexes g.by)) e v.holders_known);
  serial = Distinct-starts before after w (subst Distinct e v.serial);
}
Step-Inv {s} opt (gives_up w now before after e h) v = record {
  same_opt = check_backoff-opt s.pool w.target now ∙ v.same_opt;
  counted = omega (arith, v.counted, ap length e, length-without before after (idle w));
  bounded = v.bounded;
  queued_known = v.queued_known;
  holders_known =
      All-without (λ (g : Holder). Known s.mutexes g.by) before after (idle w)
        (subst (All (λ (g : Holder). Known s.mutexes g.by)) e v.holders_known);
  serial = Distinct-without before after _ (subst Distinct e v.serial);
}
Step-Inv {s} opt (finishes w now b before after e) v = record {
  same_opt = record_result-opt s.pool w.target b now ∙ v.same_opt;
  counted = omega (arith, v.counted, ap length e, length-without before after (busy w));
  bounded = v.bounded;
  queued_known = v.queued_known;
  holders_known =
      All-without (λ (g : Holder). Known s.mutexes g.by) before after (busy w)
        (subst (All (λ (g : Holder). Known s.mutexes g.by)) e v.holders_known);
  serial = Distinct-without before after _ (subst Distinct e v.serial);
}
Step-Inv {s} opt (gives_token h) v = ground arith

Reach-Inv : (p : Pool) {s : Sys} → Reach (start p) s → Inv p.opt s
unfolding start
Reach-Inv p here = record {
  same_opt = refl;
  counted = omega arith;
  bounded = omega arith;
  queued_known = tt;
  holders_known = tt;
  serial = tt;
}
Reach-Inv p (next r st) = Step-Inv p.opt st (Reach-Inv p r)

-- In every reachable state of overlapping calls at most Concurrency goroutines have taken a token
-- and not given it back, and no two that hold the mutex that lockFor gave them are for the same
-- target.
pub Reach-bounded_serial :
    (p : Pool) {s : Sys}
    → Reach (start p) s
    → (inside s ≤ pos_part p.opt.concurrency) × Distinct s.holders
Reach-bounded_serial p r = let v = Reach-Inv p r in (omega (arith, v.counted, v.bounded), v.serial)
