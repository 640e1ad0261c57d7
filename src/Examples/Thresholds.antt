-- ===== src/Examples/Thresholds.antt =====
-- A template for all hosts and an override of one.
use metalwatch.Base.{refl, All, none, some, [], ◌∷◌, true}
use metalwatch.Base.Int.{pos}
use metalwatch.Rules.{
  ThresholdTemplate, ThresholdOverride, build_rule_set, rules_for, template_rule, decimal,
}
use mathlib.Core.List.{Mem, mem-cons_self}
use metalwatch.Rules.Complete.{template_rules_reach}
use metalwatch.Rules.Coverage.{Fits, rules_for-Fits}

-- The thresholds 75 and 85.
abbrev cpu : ThresholdTemplate
cpu = record {
  id = pos 1;
  name = "CPU";
  metric = "cpu_temp_celsius";
  category = "sensor";
  op = "gt";
  warn_value = some 0x4052c00000000000;
  crit_value = some 0x4055400000000000;
  duration_sec = pos 120;
  enabled = true;
  builtin = true;
}

-- The threshold 90.
abbrev cooler : ThresholdOverride
cooler = record {
  id = pos 4;
  host_id = pos 2;
  hostname = "srv1";
  metric = "cpu_temp_celsius";
  op = "gt";
  warn_value = none;
  crit_value = some 0x4056800000000000;
  duration_sec = pos 0;
  enabled = true;
}

rules_for-Fits_example :
    All (Fits (cooler ∷ []) "srv1") (rules_for (build_rule_set (cpu ∷ []) (cooler ∷ [])) "srv1")
rules_for-Fits_example = rules_for-Fits (cpu ∷ []) (cooler ∷ []) "srv1"

template_rules_reach_example :
    Mem
      (template_rule cpu "tpl-1-crit" "critical" "" 0x4055400000000000)
      (rules_for (build_rule_set (cpu ∷ []) (cooler ∷ [])) "srv2")
unfolding decimal
template_rules_reach_example =
    template_rules_reach (cpu ∷ []) (cooler ∷ []) "srv2" "cpu_temp_celsius"
      (template_rule cpu "tpl-1-crit" "critical" "" 0x4055400000000000) refl mem-cons_self
