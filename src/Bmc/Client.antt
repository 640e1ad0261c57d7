-- ===== src/Bmc/Client.antt =====
-- `ApplyCommand`, backend/pkg/ipmi/ipmi.go, of a command that is not nil: the calls of ipmitool that it
-- becomes.
use metalwatch.Base.{
  ℕ, ◌+◌, ◌/◌, ◌%◌, String, Bool, true, false, ◌&&◌, ◌||◌, suc, ◌==◌, Option, none, some, List, [],
  ◌∷◌, str_eq, ltb, ◌<>◌, if◌then◌else◌,
}
use Prim.Native.Char.{Char, code}
use Prim.Native.String.{[], ◌∷◌}
use metalwatch.Base.Int.{ℤ, pos, negsuc, ltb_ℤ}
use metalwatch.Auth.{trim_space}
use metalwatch.Rules.{decimal}
use metalwatch.Bmc.{ProtoCommand}

-- What a call of ipmitool leaves: its output, and the text of its error where it fails.
pub record Ran : Type 0 where
  pub output : String
  pub failed : Option String

-- The outcome of a call by its arguments: ipmitool and the BMC behind it.
abbrev pub Executor : Type 0
Executor = List String → Ran

pub record BmcResult : Type 0 where
  pub ok : Bool
  pub message : String
  pub observed_value : ℤ

-- `calls` are the arguments of the calls of ipmitool, in order.
pub record Applied : Type 0 where
  pub calls : List (List String)
  pub result : BmcResult
  pub failed : Bool

unfoldable pub clamp_percent : ℤ → ℤ
clamp_percent p = if ltb_ℤ p (pos 0) then pos 0 else if ltb_ℤ (pos 100) p then pos 100 else p

abbrev hex_digit : ℕ → String
hex_digit d =
    if ltb d 10
    then decimal (pos d)
    else if d == 10
    then "a"
    else if d == 11
    then "b"
    else if d == 12
    then "c"
    else if d == 13
    then "d"
    else if d == 14
    then "e"
    else "f"

abbrev is_letter : ℕ → Char → Bool
is_letter upper c = code c == upper || code c == upper + 32

abbrev starts_with_n : String → Bool
starts_with_n [] = false
starts_with_n (c ∷ s) = is_letter 78 c

-- `strings.Contains(strings.ToLower(s), "on")`
unfoldable pub says_on : String → Bool
says_on [] = false
says_on (c ∷ s) = is_letter 79 c && starts_with_n s || says_on s

-- `fmt.Sprintf("0x%02x", pct)` of a clamped percentage, which has two digits at most.
unfoldable pub hex_byte : ℤ → String
unfolding decimal
hex_byte (pos n) = "0x" <> hex_digit (n / 16) <> hex_digit (n % 16)
hex_byte (negsuc n) = "0x-" <> hex_digit (suc n)

abbrev pub auto_call : List String
auto_call = "raw" ∷ "0x30" ∷ "0x30" ∷ "0x01" ∷ "0x00" ∷ []

abbrev pub manual_call : List String
manual_call = "raw" ∷ "0x30" ∷ "0x30" ∷ "0x01" ∷ "0x01" ∷ []

abbrev pub speed_call : ℤ → List String
speed_call p = "raw" ∷ "0x30" ∷ "0x30" ∷ "0x02" ∷ "0xff" ∷ hex_byte p ∷ []

abbrev pub power_call : String → List String
power_call act = "chassis" ∷ "power" ∷ act ∷ []

abbrev pub identify_call : ℤ → List String
identify_call d = "chassis" ∷ "identify" ∷ decimal d ∷ []

-- The end of `ApplyCommand`, after its last call.
abbrev pub ended_with : Option String → List (List String) → String → ℤ → Applied
ended_with none calls output observed = record {
  calls = calls;
  result = record { ok = true; message = trim_space output; observed_value = observed };
  failed = false;
}
ended_with (some e) calls output observed = record {
  calls = calls;
  result = record { ok = false; message = e; observed_value = observed };
  failed = true;
}

abbrev pub manual_refused : String → Applied
manual_refused e = record {
  calls = manual_call ∷ [];
  result = record { ok = false; message = e; observed_value = pos 0 };
  failed = true;
}

abbrev pub unknown_command : String → Applied
unknown_command t = record {
  calls = [];
  result = record { ok = false; message = "未知指令类型: " <> t; observed_value = pos 0 };
  failed = true;
}

-- A power command without an action asks for the status.
abbrev pub action_or_status : String → String
action_or_status act = if str_eq act "" then "status" else act

module _ (exec : Executor) where
  abbrev pub set_speed : ℤ → Option String → Applied
  set_speed p (some e) = manual_refused e
  set_speed p none =
      let ran = exec (speed_call p) in
      ended_with ran.failed (manual_call ∷ speed_call p ∷ []) ran.output p

  abbrev pub fan_part : Bool → ℤ → Applied
  fan_part true p = let ran = exec auto_call in ended_with ran.failed (auto_call ∷ []) ran.output p
  fan_part false p = set_speed p (exec manual_call).failed

  abbrev pub power_part : String → Applied
  power_part act =
      let ran = exec (power_call act) in
      let observed = if str_eq act "status" && says_on ran.output then pos 1 else pos 0 in
      ended_with ran.failed (power_call act ∷ []) ran.output observed

  abbrev pub identify_part : ℤ → Applied
  identify_part d =
      let ran = exec (identify_call d) in
      ended_with ran.failed (identify_call d ∷ []) ran.output (pos 0)

  -- The switch on the type of the command.
  unfoldable pub apply_as : String → ProtoCommand → Applied
  unfolding clamp_percent says_on
  apply_as t c =
      if str_eq t "fan_speed"
      then fan_part c.auto_mode (clamp_percent c.speed_percent)
      else if str_eq t "power"
      then power_part (action_or_status c.power_action)
      else if str_eq t "identify"
      then identify_part c.duration_sec
      else unknown_command t

  unfoldable pub apply_command : ProtoCommand → Applied
  unfolding apply_as
  apply_command c = apply_as c.cmd_type c
