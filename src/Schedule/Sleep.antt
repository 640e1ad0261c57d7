-- ===== src/Schedule/Sleep.antt =====
-- How long the loop of `Run` waits.
use mathlib.Core.List.{Mem, mem-cons_self, mem-cons_of_mem}
use metalwatch.Base.{
  ℕ, ◌*◌, ◌≤◌, ◌≡◌, refl, sym, ap, ◌∙◌, subst, String, true, false, some, [], ◌∷◌, All, All-map,
  ==_iff, ◌==◌, if◌then◌else◌, ◌⊎◌, inl, inr, Bool-cases, arith,
}
use metalwatch.Base.Int.{ℤ, pos, negsuc, pos_part, ltb_ℤ, ◌≤ℤ◌, max_int64}
use metalwatch.Base.Clock.{Time, Duration, minute, since}
use metalwatch.Base.Map.{Map}
use metalwatch.Schedule.{TargetState, ScheduleEngine, min_wait, sleep_until}

-- The wait until a target is due; 0 where it is overdue.
abbrev pub wait_of : Time → String × TargetState → ℕ
wait_of now entry = pos_part (since entry.1.next_due now)

min_wait-le :
    (least : Duration) (now : Time) (m : Map TargetState)
    → (min_wait least now m ≤ℤ least)
      × All (λ (e : String × TargetState). min_wait least now m ≤ℤ since e.1.next_due now) m
unfolding min_wait
min_wait-le least now [] = (omega arith, tt)
min_wait-le least now ((id, st) ∷ rest) =
    let d = since st.next_due now in
    let (h, t) = min_wait-le (if ltb_ℤ d least then d else least) now rest in
    (ground (arith, h), (ground (arith, h), t))

min_wait-attained :
    (least : Duration) (now : Time) (m : Map TargetState)
    → (min_wait least now m ≡ least)
      ⊎ ((e : String × TargetState) × Mem e m × (min_wait least now m ≡ since e.1.next_due now))
unfolding min_wait
min_wait-attained least now [] = inl refl
min_wait-attained least now ((id, st) ∷ rest) =
    let d = since st.next_due now in
    elim (Bool-cases (ltb_ℤ d least)) [
      | inl f ↦ rw f (elim (min_wait-attained d now rest) [
        | inl e ↦ inr ((id, st), mem-cons_self, e)
        | inr (x, k, e) ↦ inr (x, mem-cons_of_mem (id, st) k, e)
      ])
      | inr f ↦ rw f (elim (min_wait-attained least now rest) [
        | inl e ↦ inl e
        | inr (x, k, e) ↦ inr (x, mem-cons_of_mem (id, st) k, e)
      ])
    ]

since-bound : (t u : Time) → since t u ≤ℤ pos max_int64
unfolding since
since-bound t u = ground arith

-- A wait that is a target's time until it is due, or an hour where there is none below int64's end.
pub record Waits (d : Duration) (now : Time) (m : Map TargetState) : Type 0 where
  pub early : All (λ (e : String × TargetState). d ≤ℤ pos (wait_of now e)) m
  pub sharp :
      (d ≡ pos (60 * minute)) ⊎ ((e : String × TargetState) × Mem e m × (d ≡ pos (wait_of now e)))

at_least_zero : (w : ℤ) → ltb_ℤ w (pos 0) ≡ false → w ≡ pos (pos_part w)
at_least_zero (pos n) h = refl
at_least_zero (negsuc n) h = ground arith

below_zero : (w : ℤ) → ltb_ℤ w (pos 0) ≡ true → pos_part w ≡ 0
below_zero (pos n) h = ground arith
below_zero (negsuc n) h = refl

pos_part_mono : (w d : ℤ) → w ≤ℤ d → pos_part w ≤ pos_part d
pos_part_mono (pos n) (pos k) h = omega arith
pos_part_mono (pos n) (negsuc k) h = omega arith
pos_part_mono (negsuc n) d h = omega arith

-- A wait of at most the shortest one.
early_enough :
    (k : ℕ) (now : Time) (m : Map TargetState) (w : ℤ)
    → All (λ (e : String × TargetState). w ≤ℤ since e.1.next_due now) m
    → k ≤ pos_part w
    → All (λ (e : String × TargetState). pos k ≤ℤ pos (wait_of now e)) m
early_enough k now m w h small =
    All-map m
      (λ e (l : w ≤ℤ since e.1.next_due now).
        omega (arith, pos_part_mono w (since e.1.next_due now) l))
      h

-- While the engine runs, sleepUntil returns no more than the time until any target is due, with 0
-- for one that is overdue, and this is one of those times or an hour.
pub sleep_until-Waits :
    (now : Time) (s : ScheduleEngine)
    → s.stopped ≡ false
    → (d : Duration) × (sleep_until false now s ≡ some d) × Waits d now s.targets
unfolding sleep_until
sleep_until-Waits now s live =
    let w = min_wait (pos max_int64) now s.targets in
    let least = (min_wait-le (pos max_int64) now s.targets).1 in
    elim (Bool-cases (pos_part w == max_int64)) [
      | inl e ↦
          let top = (==_iff (pos_part w) max_int64).0 e in
          (
            pos (60 * minute),
            ground (arith, live, e),
            record {
              early = early_enough (60 * minute) now s.targets w least (omega arith);
              sharp = inl refl;
            },
          )
      | inr e ↦ elim (Bool-cases (ltb_ℤ w (pos 0))) [
        | inl f ↦ (
          pos 0,
          ground (arith, live, e, f),
          record {
            early = early_enough 0 now s.targets w least (omega arith);
            sharp = elim (min_wait-attained (pos max_int64) now s.targets) [
              | inl g ↦ ground (arith, ap pos_part g)
              | inr (x, k, g) ↦ inr (x, k, ap pos (sym (below_zero w f) ∙ ap pos_part g))
            ];
          },
        )
        | inr f ↦ (
          w,
          ground (arith, live, e, f),
          record {
            early =
                subst
                  (λ (d : ℤ).
                    All (λ (x : String × TargetState). d ≤ℤ pos (wait_of now x)) s.targets)
                  (sym (at_least_zero w f))
                  (early_enough (pos_part w) now s.targets w least (omega arith));
            sharp = elim (min_wait-attained (pos max_int64) now s.targets) [
              | inl g ↦ ground (arith, ap pos_part g)
              | inr (x, k, g) ↦ inr (x, k, at_least_zero w f ∙ ap pos (ap pos_part g))
            ];
          },
        )
      ]
    ]
