-- ===== src/Auth/Roles.antt =====
-- Who may do what behind the middleware of backend/api/web/auth.go.
use metalwatch.Base.{◌≡◌, ◌⊎◌, String, Bool, true, false, ◌||◌, some, arith, str_eq, eq_iff}
use metalwatch.Auth.{
  Subject, is_user, has_scope, can_write, is_admin, is_read_only, granted, check_access,
}

-- The subject is a user of one of the roles, or no user and holds one of the scopes.
abbrev pub Holds : Subject → Bool → Bool → Type 0
Holds s roles scopes =
    ((s.kind ≡ "user") × (roles ≡ true)) ⊎ ((is_user (some s) ≡ false) × (scopes ≡ true))

-- A request that is granted on a route for administrators comes from a user of role admin or from
-- a token of scope admin.
pub granted_admin :
    (method : String) (sub : Subject)
    → check_access true method (some sub) ≡ granted
    → Holds sub (str_eq sub.role "admin") (has_scope (some sub) "admin")
unfolding check_access is_admin is_user
granted_admin method sub h = ground (arith, eq_iff sub.kind "user")

-- A request that is granted and does not only read comes from a user of role admin or operator, or
-- from a token of scope write or *:write.
pub granted_write :
    (admin_only : Bool) (method : String) (sub : Subject)
    → is_read_only method ≡ false
    → check_access admin_only method (some sub) ≡ granted
    → Holds sub
        (str_eq sub.role "admin" || str_eq sub.role "operator")
        (has_scope (some sub) "write" || has_scope (some sub) "*:write")
unfolding check_access can_write is_user
granted_write admin_only method sub r h = ground (arith, eq_iff sub.kind "user")
