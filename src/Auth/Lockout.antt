-- ===== src/Auth/Lockout.antt =====
-- How long the login guard locks a source out, and after how many failures.
use metalwatch.Base.{
  ℕ, suc, ◌+◌, ◌*◌, ◌≤◌, ◌≡◌, String, Bool, true, false, ◌&&◌, Option, none, some, List, [], ◌∷◌,
  arith, ltb, leb, str_eq, eq_iff, eq_refl, if◌then◌else◌,
}
use metalwatch.Base.Int.{ℤ}
use metalwatch.Base.Clock.{Time, minute, add}
use metalwatch.Base.Map.{lookup, lookup-insert, lookup-erase}
use metalwatch.Auth.{
  LoginGuard, new_login_guard, allow, fail, success, attempt, count_of, Verdict, wrong_password,
  login_max_fail, login_cooldown,
}

abbrev pub failures : LoginGuard → String → ℕ
failures g ip = count_of (lookup ip g.failed)

abbrev pub is_locked : Option Time → Bool
is_locked none = false
is_locked (some until) = true

-- A source is locked exactly when it has the failures that lock it, and it never has more.
abbrev pub Locks : LoginGuard → String → Type 0
Locks g ip =
    (failures g ip ≤ login_max_fail)
    × (is_locked (lookup ip g.cooldown) ≡ leb login_max_fail (failures g ip))

abbrev pub was_refused : Option ℤ → Bool
was_refused none = false
was_refused (some wait) = true

pub record Attempt : Type 0 where
  pub ip : String
  pub now : Time
  pub again : Time
  pub ended : Time
  pub verdict : Verdict

-- The guard after a list of attempts, newest first.
unfoldable pub guard_after : LoginGuard → List Attempt → LoginGuard
guard_after g [] = g
guard_after g (a ∷ older) = (attempt (guard_after g older) a.ip a.now a.again a.ended a.verdict).0

allow-Locks :
    (g : LoginGuard) (source ip : String) (now again : Time)
    → Locks g ip
    → Locks (allow g source now again).0 ip
unfolding allow
allow-Locks g source ip now again h =
    ground
      (arith, eq_iff source ip, lookup-erase source ip g.cooldown, lookup-erase source ip g.failed)

allow_opens :
    (g : LoginGuard) (ip : String) (now again : Time)
    → was_refused (allow g ip now again).1 ≡ false
    → lookup ip (allow g ip now again).0.cooldown ≡ none
unfolding allow
allow_opens g ip now again pass = ground (arith, eq_refl ip, lookup-erase ip ip g.cooldown)

fail-Locks :
    (g : LoginGuard) (source ip : String) (ended : Time)
    → lookup source g.cooldown ≡ none
    → Locks g source
    → Locks g ip
    → Locks (fail g source ended) ip
unfolding fail
fail-Locks g source ip ended free own h = ground (
  arith,
  eq_iff source ip,
  lookup-insert source ip (suc (failures g source)) g.failed,
  lookup-insert source ip (add ended login_cooldown) g.cooldown,
)

success-Locks : (g : LoginGuard) (source ip : String) → Locks g ip → Locks (success g source) ip
unfolding success
success-Locks g source ip h =
    ground
      (arith, eq_iff source ip, lookup-erase source ip g.cooldown, lookup-erase source ip g.failed)

attempt-Locks :
    (g : LoginGuard) (a : Attempt) (ip : String)
    → Locks g a.ip
    → Locks g ip
    → Locks (attempt g a.ip a.now a.again a.ended a.verdict).0 ip
unfolding attempt
attempt-Locks g a ip own h =
    let g1 = (allow g a.ip a.now a.again).0 in
    ground (
      arith,
      allow-Locks g a.ip a.ip a.now a.again own,
      allow-Locks g a.ip ip a.now a.again h,
      allow_opens g a.ip a.now a.again,
      fail-Locks g1 a.ip ip a.ended,
      success-Locks g1 a.ip ip,
    )

-- After any attempts on a new guard, one after another, no source has more than five failures on
-- its account, and a source is locked exactly when it has five.
pub guard_after-Locks :
    (calls : List Attempt) (ip : String) → Locks (guard_after new_login_guard calls) ip
unfolding guard_after new_login_guard lookup
guard_after-Locks [] ip = ground arith
guard_after-Locks (a ∷ older) ip =
    attempt-Locks (guard_after new_login_guard older) a ip (guard_after-Locks older a.ip)
      (guard_after-Locks older ip)

fail-blocks :
    (g : LoginGuard) (ip other : String) (ended later again : Time)
    → Locks g ip
    → lookup ip g.cooldown ≡ none
    → was_refused (allow (fail g ip ended) other later again).1 ≡ (
        if str_eq ip other
        then leb login_max_fail (suc (failures g ip)) && ltb later (ended + 5 * minute)
        else was_refused (allow g other later again).1)
unfolding allow fail add
fail-blocks g ip other ended later again h open_now =
    ground (arith, eq_iff ip other, lookup-insert ip other (ended + 5 * minute) g.cooldown)

attempt-fails :
    (g : LoginGuard) (ip : String) (now again ended : Time)
    → was_refused (allow g ip now again).1 ≡ false
    → (attempt g ip now again ended wrong_password).0 ≡ fail (allow g ip now again).0 ip ended
unfolding attempt
attempt-fails g ip now again ended pass = ground arith

-- On a guard that any attempts lead to, after a wrong password that was checked the source is
-- refused exactly while that was the fifth failure on its account and five minutes have not passed
-- since; whether another source is refused does not change.
pub wrong_password_locks :
    (calls : List Attempt) (ip other : String) (now again ended later reread : Time)
    → was_refused (allow (guard_after new_login_guard calls) ip now again).1 ≡ false
    → let g = (allow (guard_after new_login_guard calls) ip now again).0 in
      let g' = (attempt (guard_after new_login_guard calls) ip now again ended wrong_password).0 in
      was_refused (allow g' other later reread).1 ≡ (
        if str_eq ip other
        then leb login_max_fail (suc (failures g ip)) && ltb later (ended + 5 * minute)
        else was_refused (allow g other later reread).1)
wrong_password_locks calls ip other now again ended later reread pass =
    let before = guard_after new_login_guard calls in
    let free = allow_opens before ip now again pass in
    let locks = allow-Locks before ip ip now again (guard_after-Locks calls ip) in
    rw (attempt-fails before ip now again ended pass)
      (fail-blocks (allow before ip now again).0 ip other ended later reread locks free)
