-- ===== src/Bmc/Execute.antt =====
-- `Execute`, backend/internal/service/bmcctl.go: the request is checked, written to the audit, run and
-- its outcome written back.
use Prim.Native.Char.{code, len_utf8}
use Prim.Native.String.{[], ◌∷◌}
use metalwatch.Base.{
  ℕ, ◌-◌, String, Bool, ◌&&◌, not, Option, none, some, List, [], ◌∷◌, ◌++◌, str_eq, leb, ◌<>◌,
  if◌then◌else◌,
}
use metalwatch.Base.Int.{ℤ}
use metalwatch.Base.Clock.{Time}
use metalwatch.Auth.{is_space}
use metalwatch.Bmc.{
  invalid_input, not_found_in_service, other_error, ServiceReturn, returned, refused, panicked,
  BmcCommandInput, ProtoCommand, Param, validate, build_proto_command, params_of,
}
use metalwatch.Bmc.Client.{Executor, Applied, apply_command}

pub record AuditRow : Type 0 where
  pub host_id : ℤ
  pub command_id : String
  pub cmd_type : String
  pub target : String
  pub params : List (String × Param)
  pub status : String
  pub message : String
  pub observed_value : Option ℤ
  pub operator : String
  pub created_at : Time
  pub executed_at : Option Time

-- The INSERT of `Create`.
abbrev pub create : AuditRow → List AuditRow → List AuditRow
create row rows = rows ++ (record row { status = "pending" } ∷ [])

abbrev pub with_outcome : String → String → Option ℤ → Time → AuditRow → AuditRow
with_outcome status message observed at row = record row {
  status = status;
  message = message;
  observed_value = observed;
  executed_at = some at;
}

-- The UPDATE of `Finish`, on the rows of a command ID.
unfoldable pub finish : String → String → String → Option ℤ → Time → List AuditRow → List AuditRow
finish id status message observed at [] = []
finish id status message observed at (row ∷ rows) =
    let rest = finish id status message observed at rows in
    if str_eq row.command_id id
    then with_outcome status message observed at row ∷ rest
    else row ∷ rest

-- The word that a text starts with, and the words behind it.
unfoldable spans : String → String × List String
spans [] = ("", [])
spans (c ∷ s) =
    let (word, words) = spans s in
    if is_space (code c)
    then ("", (if str_eq word "" then words else word ∷ words))
    else (c ∷ word, words)

-- `strings.Fields`
unfoldable fields : String → List String
unfolding spans
fields s = if str_eq (spans s).0 "" then (spans s).1 else (spans s).0 ∷ (spans s).1

unfoldable join : List String → String
join [] = ""
join (w ∷ []) = w
join (w ∷ v ∷ ws) = w <> " " <> join (v ∷ ws)

-- `strs.Truncate`: as many whole characters as fit.
unfoldable pub truncate : String → ℕ → String
truncate [] n = []
truncate (c ∷ s) n =
    let rest = truncate s (n - len_utf8 c) in if leb (len_utf8 c) n then c ∷ rest else []

unfoldable pub truncate_one_line : String → ℕ → String
unfolding fields join truncate
truncate_one_line s n = truncate (join (fields s)) n

-- What the stored BMC credentials of a host are read as.
pub data CredentialRead : Type 0 where
  cred_read : CredentialRead
  cred_missing : CredentialRead
  cred_failed : CredentialRead

-- What `Create` comes to: the row and its number, no row, or a row whose number `LastInsertId` cannot
-- tell, which is an error as well.
pub data Creation : Type 0 where
  inserted : Creation
  not_inserted : Creation
  number_unknown : Creation

-- What one call of `Execute` meets: `host` is the BMC address of the host, none where there is no such
-- host; `opened` whether the password can be decrypted; `new_id` the random command ID.
pub record Scene : Type 0 where
  pub host : Option (Option String)
  pub cred : CredentialRead
  pub opened : Bool
  pub new_id : Option String
  pub creation : Creation
  pub finish_ok : Bool
  pub exec : Executor
  pub begun_at : Time
  pub ended_at : Time

-- `BMCCommandResult`
pub record CommandResult : Type 0 where
  pub ok : Bool
  pub message : String
  pub request_id : String

pub record Executed : Type 0 where
  pub audit : List AuditRow
  pub calls : List (List String)
  pub outcome : ServiceReturn CommandResult

-- An early return: nothing has been run.
abbrev pub not_begun : List AuditRow → ServiceReturn CommandResult → Executed
not_begun audit o = record { audit = audit; calls = []; outcome = o }

abbrev pub status_of : Applied → String
status_of a = if not a.failed && a.result.ok then "success" else "failed"

abbrev pub observed_of : Applied → Option ℤ
observed_of a = if a.result.ok then some a.result.observed_value else none

module _ (sc : Scene) (host_id : ℤ) (operator : String) (i : BmcCommandInput) where
  abbrev pub row_of : String → AuditRow
  row_of id = record {
    host_id = host_id;
    command_id = id;
    cmd_type = i.cmd_type;
    target = i.target;
    params = params_of i;
    status = "";
    message = "";
    observed_value = none;
    operator = operator;
    created_at = sc.begun_at;
    executed_at = none;
  }

  -- From `client.ApplyCommand` on.
  unfoldable pub run_command : ProtoCommand → List AuditRow → Executed
  unfolding apply_command truncate_one_line finish
  run_command cmd audit =
      let a = apply_command sc.exec cmd in
      let message = truncate_one_line a.result.message 512 in
      record {
        audit =
            if sc.finish_ok
            then finish cmd.command_id (status_of a) message (observed_of a) sc.ended_at audit
            else audit;
        calls = a.calls;
        outcome =
            returned (record { ok = a.result.ok; message = message; request_id = cmd.command_id });
      }

  -- From the call of `Create` on.
  unfoldable pub audited : Creation → ProtoCommand → List AuditRow → Executed
  unfolding run_command
  audited inserted cmd audit = run_command cmd (create (row_of cmd.command_id) audit)
  audited not_inserted cmd audit = not_begun audit (refused other_error)
  audited number_unknown cmd audit =
      not_begun (create (row_of cmd.command_id) audit) (refused other_error)

  unfoldable pub built : ServiceReturn ProtoCommand → List AuditRow → Executed
  unfolding audited
  built (refused e) audit = not_begun audit (refused e)
  built panicked audit = not_begun audit panicked
  built (returned cmd) audit = audited sc.creation cmd audit

  unfoldable pub credentials : CredentialRead → List AuditRow → Executed
  unfolding build_proto_command built
  credentials cred_missing audit = not_begun audit (refused not_found_in_service)
  credentials cred_failed audit = not_begun audit (refused other_error)
  credentials cred_read audit =
      if sc.opened
      then built (build_proto_command sc.new_id i) audit
      else not_begun audit (refused other_error)

  unfoldable pub addressed : Option (Option String) → List AuditRow → Executed
  unfolding credentials
  addressed none audit = not_begun audit (refused not_found_in_service)
  addressed (some none) audit = not_begun audit (refused not_found_in_service)
  addressed (some (some ip)) audit =
      if str_eq ip ""
      then not_begun audit (refused not_found_in_service)
      else credentials sc.cred audit

  unfoldable pub execute : List AuditRow → Executed
  unfolding validate addressed
  execute audit =
      if validate i then addressed sc.host audit else not_begun audit (refused invalid_input)
