-- ===== src/Auth.antt =====
-- Subjects of requests and the login guard, backend/internal/authz/subject.go. The guard's mutex makes
-- each operation atomic; a clock reading is an argument.
pub mod Roles
pub mod Lockout
pub mod Action
use Prim.Native.Char.{Char, code}
use Prim.Native.String.{[], ◌∷◌}
use mathlib.Core.List.{[], ◌∷◌}
use metalwatch.Base.{
  ℕ, suc, ◌+◌, ◌*◌, ◌/◌, String, Bool, true, false, ◌&&◌, ◌||◌, not, Option, none, some, List,
  str_eq, ltb, leb, ◌==◌, if◌then◌else◌,
}
use metalwatch.Base.Int.{ℤ, pos, sub_ℕ, pos_part, neg_part}
use metalwatch.Base.Clock.{Time, Duration, second, minute, add, since}
use metalwatch.Base.Map.{Map, lookup, insert, erase}

pub record Subject : Type 0 where
  pub kind : String
  pub user_id : ℤ
  pub username : String
  pub role : String
  pub scopes : List String

-- unicode.IsSpace
unfoldable pub is_space : ℕ → Bool
is_space n =
    (leb 9 n && leb n 13)
    || n == 32
    || n == 0x85
    || n == 0xa0
    || n == 0x1680
    || (leb 0x2000 n && leb n 0x200a)
    || n == 0x2028
    || n == 0x2029
    || n == 0x202f
    || n == 0x205f
    || n == 0x3000

unfoldable pub trim_left : String → String
trim_left [] = []
trim_left (c ∷ s) = let rest = trim_left s in if is_space (code c) then rest else c ∷ s

abbrev keep_unless_blank : Char → String → String
keep_unless_blank c [] = if is_space (code c) then [] else c ∷ []
keep_unless_blank c (d ∷ s) = c ∷ d ∷ s

unfoldable pub trim_right : String → String
trim_right [] = []
trim_right (c ∷ s) = keep_unless_blank c (trim_right s)

-- strings.TrimSpace
unfoldable pub trim_space : String → String
trim_space s = trim_right (trim_left s)

unfoldable pub is_user : Option Subject → Bool
is_user none = false
is_user (some s) = str_eq s.kind "user"

abbrev any_is : String → List String → Bool
any_is scope [] = false
any_is scope (sc ∷ scs) = if str_eq (trim_space sc) scope then true else any_is scope scs

unfoldable pub has_scope : Option Subject → String → Bool
has_scope none scope = false
has_scope (some s) scope = any_is scope s.scopes

unfoldable pub can_write : Option Subject → Bool
can_write none = false
can_write (some s) =
    if is_user (some s)
    then str_eq s.role "admin" || str_eq s.role "operator"
    else has_scope (some s) "write" || has_scope (some s) "*:write"

unfoldable pub is_admin : Option Subject → Bool
is_admin none = false
is_admin (some s) = if is_user (some s) then str_eq s.role "admin" else has_scope (some s) "admin"

unfoldable pub is_read_only : String → Bool
is_read_only method = str_eq method "GET" || str_eq method "HEAD" || str_eq method "OPTIONS"

pub data Access : Type 0 where
  granted admin_required write_required : Access

-- The two tests of the middleware on an authenticated request; `admin_only` is the entry of the route.
unfoldable pub check_access : Bool → String → Option Subject → Access
check_access admin_only method sub =
    if admin_only && not (is_admin sub)
    then admin_required
    else if not (is_read_only method) && not (can_write sub)
    then write_required
    else granted

pub record LoginGuard : Type 0 where
  pub failed : Map ℕ
  pub cooldown : Map Time

abbrev pub login_max_fail : ℕ
login_max_fail = 5

abbrev pub login_cooldown : Duration
login_cooldown = pos (5 * minute)

unfoldable pub new_login_guard : LoginGuard
new_login_guard = record { failed = []; cooldown = [] }

-- The `wait` of `Allow`, from a clock reading of its own: whole seconds towards zero, and one.
unfoldable pub retry_after : Time → Time → ℤ
retry_after until now =
    let left = since until now in sub_ℕ (pos_part left / second + 1) (neg_part left / second)

-- `some wait` is a refusal. `now` and `later` are the two clock readings.
unfoldable pub allow : LoginGuard → String → Time → Time → LoginGuard × Option ℤ
allow g ip now later = elim (lookup ip g.cooldown) [
  | none ↦ (g, none)
  | some until ↦
      if ltb now until
      then (g, some (retry_after until later))
      else (record g { cooldown = erase ip g.cooldown; failed = erase ip g.failed }, none)
]

abbrev pub count_of : Option ℕ → ℕ
count_of none = 0
count_of (some n) = n

unfoldable pub fail : LoginGuard → String → Time → LoginGuard
fail g ip now =
    let n = suc (count_of (lookup ip g.failed)) in
    let g' = record g { failed = insert ip n g.failed } in
    if leb login_max_fail n
    then record g' { cooldown = insert ip (add now login_cooldown) g'.cooldown }
    else g'

unfoldable pub success : LoginGuard → String → LoginGuard
success g ip = record g { failed = erase ip g.failed; cooldown = erase ip g.cooldown }

-- One attempt to log in: the test of the middleware, then the handler's report of the outcome. An
-- attempt that is let through may also end without a report, as when the user cannot be read.
pub data Verdict : Type 0 where
  right_password wrong_password not_checked : Verdict

unfoldable pub attempt : LoginGuard → String → Time → Time → Time → Verdict → LoginGuard × Option ℤ
attempt g ip now again ended verdict =
    let (g', refused) = allow g ip now again in
    elim refused [
      | some wait ↦ (g', some wait)
      | none ↦ elim verdict [
        | right_password ↦ (success g' ip, none)
        | wrong_password ↦ (fail g' ip ended, none)
        | not_checked ↦ (g', none)
      ]
    ]
