-- ===== src/Bmc/Audit.antt =====
-- What `Execute` leaves in the audit.
use metalwatch.Base.{
  ◌≡◌, ◌≢◌, refl, sym, ap, ◌∙◌, subst, String, Bool, true, false, Option, some, All, List, [], ◌∷◌,
  ◌++◌, str_eq, eq_refl, if◌then◌else◌, Bool-cases, inl, inr, arith,
}
use metalwatch.Base.Int.{ℤ}
use metalwatch.Base.Clock.{Time}
use metalwatch.Bmc.{
  ServiceReturn, returned, refused, panicked, BmcCommandInput, ProtoCommand, params_of,
}
use metalwatch.Bmc.Client.{Applied, apply_as, apply_command}
use metalwatch.Bmc.Execute.{
  AuditRow, Scene, CommandResult, Executed, create, finish, with_outcome, row_of, status_of,
  observed_of, truncate_one_line, run_command, execute,
}
use metalwatch.Bmc.Refusals.{Course, invalid, unable, left_pending, ran, execute-Course}
use metalwatch.Bmc.Sent.{Agreeing, apply_as-Agreeing}

-- The audit has no row of this command ID.
abbrev pub NoRow : String → List AuditRow → Type 0
NoRow id rows = All (λ (r : AuditRow). str_eq r.command_id id ≡ false) rows

finish-append :
    (id status message : String) (observed : Option ℤ) (at : Time) (row : AuditRow)
    (rows : List AuditRow)
    → NoRow id rows
    → str_eq row.command_id id ≡ true
    → finish id status message observed at (rows ++ (row ∷ []))
      ≡ rows ++ (with_outcome status message observed at row ∷ [])
unfolding finish
finish-append id status message observed at row [] h e = rw e refl
finish-append id status message observed at row (r ∷ rows) (n, h) e =
    rw n (ap (◌∷◌ r) (finish-append id status message observed at row rows h e))

got_ok : ServiceReturn CommandResult → Bool
got_ok (returned r) = r.ok
got_ok (refused e) = false
got_ok panicked = false

got_id : ServiceReturn CommandResult → String
got_id (returned r) = r.request_id
got_id (refused e) = ""
got_id panicked = ""

status_lem :
    (a : Applied) (ok : Bool)
    → Agreeing a
    → a.result.ok ≡ ok
    → status_of a ≡ (if ok then "success" else "failed")
status_lem a ok g e = ground (arith, g, e)

module _ (sc : Scene) (host_id : ℤ) (operator : String) (i : BmcCommandInput)
    (audit : List AuditRow) where
  -- The one row that a call adds.
  pub record Logged (x : Executed) (r : CommandResult) : Type 0 where
    pub row : AuditRow
    pub added : x.audit ≡ audit ++ (row ∷ [])
    pub by : row.operator ≡ operator
    pub for : row.host_id ≡ host_id
    pub asked : row.params ≡ params_of i
    pub status :
        row.status ≡ (if sc.finish_ok then (if r.ok then "success" else "failed") else "pending")
    pub traced : r.request_id ≡ row.command_id

  run_command-Logged :
      (cmd : ProtoCommand) (r : CommandResult)
      → NoRow cmd.command_id audit
      → (run_command sc host_id operator i cmd
          (create (row_of sc host_id operator i cmd.command_id) audit)).outcome
        ≡ returned r
      → Logged
          (run_command sc host_id operator i cmd
            (create (row_of sc host_id operator i cmd.command_id) audit))
          r
  unfolding run_command apply_command got_ok got_id
  run_command-Logged cmd r fresh o =
      let row0 = record (row_of sc host_id operator i cmd.command_id) { status = "pending" } in
      let a = apply_as sc.exec cmd.cmd_type cmd in
      let message = truncate_one_line a.result.message 512 in
      let row1 = with_outcome (status_of a) message (observed_of a) sc.ended_at row0 in
      let ok : a.result.ok ≡ r.ok = ap got_ok o in
      let id : cmd.command_id ≡ r.request_id = ap got_id o in
      elim (Bool-cases sc.finish_ok) [
        | inl f ↦ record {
          row = row1;
          added =
              ap
                (λ (b : Bool).
                  if b
                  then finish cmd.command_id (status_of a) message (observed_of a) sc.ended_at
                      (audit ++ (row0 ∷ []))
                  else audit ++ (row0 ∷ []))
                f
              ∙ finish-append cmd.command_id (status_of a) message (observed_of a) sc.ended_at row0
                  audit fresh (eq_refl cmd.command_id);
          by = refl;
          for = refl;
          asked = refl;
          status =
              status_lem a r.ok (apply_as-Agreeing sc.exec cmd.cmd_type cmd) ok
              ∙ sym (
                  ap (λ (b : Bool). if b then (if r.ok then "success" else "failed") else "pending")
                    f);
          traced = sym id;
        }
        | inr f ↦ record {
          row = row0;
          added =
              ap
                (λ (b : Bool).
                  if b
                  then finish cmd.command_id (status_of a) message (observed_of a) sc.ended_at
                      (audit ++ (row0 ∷ []))
                  else audit ++ (row0 ∷ []))
                f;
          by = refl;
          for = refl;
          asked = refl;
          status = sym (
              ap (λ (b : Bool). if b then (if r.ok then "success" else "failed") else "pending") f);
          traced = sym id;
        }
      ]

  Course-Logged :
      (x : Executed) (r : CommandResult)
      → Course sc host_id operator i audit x
      → ((id : String) → sc.new_id ≡ some id → NoRow id audit)
      → x.outcome ≡ returned r
      → Logged x r
  Course-Logged x r (invalid v p) fresh h =
      absurd (ground (arith, h, ap (λ (y : Executed). y.outcome) p))
  Course-Logged x r (unable e v n p) fresh h =
      absurd (ground (arith, h, ap (λ (y : Executed). y.outcome) p))
  Course-Logged x r (left_pending cmd v n k p) fresh h =
      absurd (ground (arith, h, ap (λ (y : Executed). y.outcome) p))
  Course-Logged x r (ran cmd v n c p) fresh h =
      subst (λ (y : Executed). Logged y r) (sym p)
        (run_command-Logged cmd r (fresh cmd.command_id n)
          (sym (ap (λ (y : Executed). y.outcome) p) ∙ h))

  -- Where the random command ID is not in the audit yet, a call of Execute that returns a result,
  -- good or bad, has added one row to the audit: of this operator, host and request, and with the
  -- ID of the result. It says success where the result is ok and failed where it is not; if it
  -- could not be written again, it is still pending.
  pub execute-Logged :
      (r : CommandResult)
      → ((id : String) → sc.new_id ≡ some id → NoRow id audit)
      → (execute sc host_id operator i audit).outcome ≡ returned r
      → Logged (execute sc host_id operator i audit) r
  execute-Logged r fresh h =
      Course-Logged (execute sc host_id operator i audit) r
        (execute-Course sc host_id operator i audit) fresh h

  Course-panicked : (x : Executed) → Course sc host_id operator i audit x → x.outcome ≢ panicked
  unfolding run_command
  Course-panicked x (invalid v p) h = ground (arith, h, ap (λ (y : Executed). y.outcome) p)
  Course-panicked x (unable e v n p) h = ground (arith, h, ap (λ (y : Executed). y.outcome) p)
  Course-panicked x (left_pending cmd v n k p) h =
      ground (arith, h, ap (λ (y : Executed). y.outcome) p)
  Course-panicked x (ran cmd v n c p) h = ground (arith, h, ap (λ (y : Executed). y.outcome) p)

  -- `Execute` does not panic: a speed that `buildProtoCommand` reads is there.
  pub execute_returns : (execute sc host_id operator i audit).outcome ≢ panicked
  execute_returns =
      Course-panicked (execute sc host_id operator i audit)
        (execute-Course sc host_id operator i audit)
