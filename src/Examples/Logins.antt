-- ===== src/Examples/Logins.antt =====
-- An operator, a token, and a source that has failed four times.
use metalwatch.Base.{
  ℕ, suc, ◌+◌, ◌*◌, ◌≡◌, refl, ◌&&◌, List, [], ◌∷◌, ltb, leb, str_eq, if◌then◌else◌,
}
use metalwatch.Base.Int.{pos}
use metalwatch.Base.Clock.{second, minute}
use metalwatch.Base.Map.{lookup, insert}
use metalwatch.Auth.{Subject, new_login_guard, allow, attempt, wrong_password, login_max_fail, fail}
use metalwatch.Auth.Action.{
  action_for, verb_of, strip, trim_slashes_left, trim_slashes_right, split_path, is_placeholder,
  without_placeholders, dotted,
}
use metalwatch.Auth.Lockout.{Attempt, failures, was_refused, guard_after, wrong_password_locks}

abbrev operator : Subject
operator = record {
  kind = "user";
  user_id = pos 7;
  username = "op";
  role = "operator";
  scopes = [];
}

abbrev token : Subject
token = record { kind = "token"; user_id = pos 0; username = ""; role = ""; scopes = " admin" ∷ [] }

abbrev miss : ℕ → Attempt
miss t = record {
  ip = "10.0.0.9";
  now = t * second;
  again = t * second;
  ended = t * second;
  verdict = wrong_password;
}

abbrev four_misses : List Attempt
four_misses = miss 4 ∷ miss 3 ∷ miss 2 ∷ miss 1 ∷ []

wrong_password_locks_example :
    let g =
      (allow (guard_after new_login_guard four_misses) "10.0.0.9" (5 * second) (5 * second)).0 in
    let g' =
      (attempt
        (guard_after new_login_guard four_misses)
        "10.0.0.9"
        (5 * second)
        (5 * second)
        (5 * second)
        wrong_password).0 in
    was_refused (allow g' "10.0.0.9" minute minute).1 ≡ (
      if str_eq "10.0.0.9" "10.0.0.9"
      then leb login_max_fail (suc (failures g "10.0.0.9")) && ltb minute (5 * second + 5 * minute)
      else was_refused (allow g "10.0.0.9" minute minute).1)
unfolding guard_after new_login_guard attempt allow fail lookup insert
wrong_password_locks_example =
    wrong_password_locks four_misses "10.0.0.9" "10.0.0.9" (5 * second) (5 * second) (5 * second)
      minute minute refl

-- The examples of the comment on ActionFor.
documented_actions :
    (action_for "POST" "/api/v1/hosts" ≡ "hosts.create")
    × (action_for "DELETE" "/api/v1/hosts/:id" ≡ "hosts.delete")
    × (action_for "PUT" "/api/v1/hosts/:id/bmc" ≡ "hosts.bmc.update")
    × (action_for "GET" "/api/v1/" ≡ "read")
unfolding action_for verb_of strip trim_slashes_left trim_slashes_right split_path is_placeholder
    without_placeholders dotted
documented_actions = (refl, refl, refl, refl)
