-- ===== src/Examples/Commands.antt =====
-- A request for a fan speed of 50 percent, at a BMC that does what it is told.
use metalwatch.Base.{◌≡◌, ◌↔◌, refl, true, none, some, All, []}
use metalwatch.Base.Int.{pos}
use metalwatch.Auth.{trim_space, trim_right, trim_left, is_space}
use metalwatch.Bmc.{
  invalid_input, other_error, returned, panicked, refused, BmcCommandInput, validate,
  build_proto_command,
}
use metalwatch.Bmc.Client.{apply_command}
use metalwatch.Bmc.Execute.{
  Scene, cred_read, inserted, number_unknown, CommandResult, built, audited, credentials, addressed,
  run_command, truncate_one_line, execute,
}
use metalwatch.Bmc.Refusals.{Refused, execute_refuses}
use metalwatch.Bmc.Capability.{Probe, Reaches, executor_of, capability, capability_panics}
use metalwatch.Bmc.Sent.{IsPermitted, execute-IsPermitted}
use metalwatch.Bmc.Audit.{Logged, execute-Logged}

abbrev obedient : Scene
obedient = record {
  host = some (some "10.0.0.7");
  cred = cred_read;
  opened = true;
  new_id = some "bmc-00";
  creation = inserted;
  finish_ok = true;
  exec = λ args. record { output = "done"; failed = none };
  begun_at = 1;
  ended_at = 2;
}

abbrev half_speed : BmcCommandInput
half_speed = record {
  cmd_type = "fan";
  target = "";
  speed_percent = some (pos 50);
  auto_mode = none;
  power_action = "";
  duration_sec = none;
}

abbrev too_fast : BmcCommandInput
too_fast = record half_speed { speed_percent = some (pos 101) }

execute-IsPermitted_example : All IsPermitted (execute obedient (pos 1) "admin" half_speed []).calls
execute-IsPermitted_example = execute-IsPermitted obedient (pos 1) "admin" half_speed []

too_fast-refused : (execute obedient (pos 1) "admin" too_fast []).outcome ≡ refused invalid_input
unfolding execute validate
too_fast-refused = refl

execute_refuses_example :
    Refused obedient
      (pos 1)
      "admin"
      too_fast
      []
      (execute obedient (pos 1) "admin" too_fast [])
      invalid_input
execute_refuses_example =
    execute_refuses obedient (pos 1) "admin" too_fast [] invalid_input too_fast-refused

-- The INSERT is done, but its number cannot be told.
abbrev no_number : Scene
no_number = record obedient { creation = number_unknown }

no_number-refused : (execute no_number (pos 1) "admin" half_speed []).outcome ≡ refused other_error
unfolding execute validate addressed credentials built build_proto_command audited trim_space
    trim_right trim_left is_space
no_number-refused = refl

abbrev half_speed_done : CommandResult
half_speed_done = record { ok = true; message = "done"; request_id = "bmc-00" }

half_speed-returned :
    (execute obedient (pos 1) "admin" half_speed []).outcome ≡ returned half_speed_done
unfolding execute validate addressed credentials built audited build_proto_command run_command
    apply_command truncate_one_line trim_space trim_right trim_left is_space
half_speed-returned = refl

execute-Logged_example :
    Logged obedient
      (pos 1)
      "admin"
      half_speed
      []
      (execute obedient (pos 1) "admin" half_speed [])
      half_speed_done
execute-Logged_example =
    execute-Logged obedient (pos 1) "admin" half_speed [] half_speed_done (λ id e. tt)
      half_speed-returned

-- As the server makes the service.
abbrev no_factory : Probe
no_factory = record {
  host = some (some "10.0.0.7");
  cred = cred_read;
  opened = true;
  factory = none;
}

capability_panics_example :
    (capability no_factory (pos 1) ≡ panicked)
    ↔ (Reaches no_factory × (executor_of no_factory.factory ≡ none))
capability_panics_example = capability_panics no_factory (pos 1)
