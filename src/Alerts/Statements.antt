-- ===== src/Alerts/Statements.antt =====
-- What the statements of the repository do to the alarms that are open.
use metalwatch.Base.{
  ℕ, ◌+◌, ◌≡◌, refl, ap, ◌∙◌, String, true, false, ◌&&◌, not, Option, none, some, List, [], ◌∷◌,
  ◌++◌, All, All-append, ltb, str_eq, eq_iff, if◌then◌else◌, Bool-cases, inl, inr, arith,
}
use metalwatch.Base.Clock.{Time}
use metalwatch.Base.Float.{Float64}
use metalwatch.Alerts.{
  firing_row, silenced_row, Row, Table, Attempt, has_key, is_firing, update_where, is_taken,
  firing_id, refresh, refresh_firing, upsert_firing, close_row, resolve, touch, insert_silenced,
}
use metalwatch.Alerts.Open.{
  firing_count, is_keyed, Sound, update_where-firing_count, Keeps, firing_count-Keeps, Sound-Keeps,
  firing_count-close, keyed-close,
}

firing_count-append :
    (other : String) (rows : List Row) (r : Row)
    → firing_count other (rows ++ (r ∷ []))
      ≡ firing_count other rows + (if is_firing other r then 1 else 0)
unfolding firing_count
firing_count-append other [] r = ground arith
firing_count-append other (q ∷ rows) r = ground (arith, firing_count-append other rows r)

is_taken-firing_count :
    (key : String) (rows : List Row)
    → All (λ (r : Row). is_keyed r.active_key ≡ str_eq r.state "firing") rows
    → is_taken key rows ≡ ltb 0 (firing_count key rows)
unfolding is_taken firing_count is_firing
is_taken-firing_count key [] a = refl
is_taken-firing_count key (r ∷ rs) a =
    ground (arith, with_key r.active_key a.0, is_taken-firing_count key rs a.1)
  where
    with_key :
        (k : Option String)
        → is_keyed k ≡ str_eq r.state "firing"
        → has_key key k ≡ (has_key key k && str_eq r.state "firing")
    with_key none e = ground arith
    with_key (some k) e = ground (arith, e)

refresh-Keeps : (e : Row) (at : Time) → Keeps (refresh e at)
unfolding refresh
refresh-Keeps e at r = (refl, refl)

is_firing-new :
    (key other : String) (r : Row)
    → r.active_key ≡ some key
    → r.state ≡ "firing"
    → is_firing other r ≡ str_eq key other
unfolding is_firing
is_firing-new key other r k s = rw k (rw s (ground (arith, eq_iff key other)))

is_firing-unkeyed : (other : String) (r : Row) → r.active_key ≡ none → is_firing other r ≡ false
unfolding is_firing
is_firing-unkeyed other r k = rw k refl

-- What it means that an alarm of the key is open after the call and the others are as they were.
abbrev pub Opened : String → List Row → List Row → Type 0
Opened key rows rows' =
    (other : String)
    → firing_count other rows' ≡ (if str_eq key other then 1 else firing_count other rows)

pub upsert_firing-Opened :
    (a : Attempt) (e : Row) (key : String) (at : Time) (t : Table)
    → Sound t.rows
    → a.first_ok ≡ true
    → a.second_ok ≡ true
    → let (t', out) = upsert_firing a e key at t in
      ((id : ℕ) × (out ≡ some (not (ltb 0 (firing_count key t.rows)), id)))
      × Opened key t.rows t'.rows
unfolding upsert_firing refresh_firing
upsert_firing-Opened a e key at t s ok ok' =
    let count = update_where-firing_count key (refresh e at) t.rows in
    elim (Bool-cases (ltb 0 (firing_count key t.rows))) [
      | inl h ↦
          rw (ok, count, h)
            (
              (firing_id key (update_where (is_firing key) (refresh e at) t.rows).0, refl),
              λ other.
                  firing_count-Keeps key other (refresh e at) t.rows (refresh-Keeps e at)
                  ∙ ground (arith, h, s.once key, eq_iff key other),
            )
      | inr h ↦
          rw (ok, count, h, ok', is_taken-firing_count key t.rows s.keyed ∙ h)
            (
              (t.next_id, refl),
              λ other.
                  firing_count-append other t.rows (firing_row e key at t.next_id)
                  ∙ ground (
                    arith,
                    h,
                    is_firing-new key other (firing_row e key at t.next_id) refl refl,
                    eq_iff key other,
                  ),
            )
    ]

-- The alarm of the key is closed and the others are as they were.
abbrev pub Closed : String → List Row → List Row → Type 0
Closed key rows rows' =
    (other : String)
    → firing_count other rows' ≡ (if str_eq key other then 0 else firing_count other rows)

pub resolve-Closed :
    (a : Attempt) (key : String) (at : Time) (t : Table)
    → a.first_ok ≡ true
    → let (t', out) = resolve a key at t in
      (out ≡ some (ltb 0 (firing_count key t.rows))) × Closed key t.rows t'.rows
unfolding resolve
resolve-Closed a key at t ok = rw ok (
  ap (λ (n : ℕ). some (ltb 0 n)) (update_where-firing_count key (close_row at) t.rows),
  λ other. firing_count-close at key other t.rows,
)

touch-Keeps :
    (at : Time) (v : Option Float64) → Keeps (λ r. record r { last_seen_at = at; value = v })
touch-Keeps at v r = (refl, refl)

pub touch-firing_count :
    (a : Attempt) (key other : String) (at : Time) (v : Option Float64) (t : Table)
    → firing_count other (touch a key at v t).rows ≡ firing_count other t.rows
unfolding touch
touch-firing_count a key other at v t = elim (Bool-cases a.first_ok) [
  | inl e ↦ rw e (firing_count-Keeps key other _ t.rows (touch-Keeps at v))
  | inr e ↦ rw e refl
]

pub insert_silenced-firing_count :
    (a : Attempt) (e : Row) (other : String) (at : Time) (t : Table)
    → firing_count other (insert_silenced a e at t).rows ≡ firing_count other t.rows
unfolding insert_silenced
insert_silenced-firing_count a e other at t =
    let new = silenced_row e at t.next_id in
    ground (arith, firing_count-append other t.rows new, is_firing-unkeyed other new refl)

Sound-new :
    (e : Row) (key : String) (at : Time) (id : ℕ) (rows : List Row)
    → Sound rows
    → is_taken key rows ≡ false
    → Sound (rows ++ (firing_row e key at id ∷ []))
Sound-new e key at id rows s free =
    let new = firing_row e key at id in
    let none_yet = is_taken-firing_count key rows s.keyed in
    record {
      keyed = All-append _ rows (new ∷ []) s.keyed (refl, tt);
      once = λ other. ground (
        arith,
        firing_count-append other rows new,
        is_firing-new key other new refl refl,
        s.once other,
        none_yet,
        free,
        eq_iff key other,
      );
    }

-- Every statement keeps one row to a key, whether it fails or not.
pub upsert_firing-Sound :
    (a : Attempt) (e : Row) (key : String) (at : Time) (t : Table)
    → Sound t.rows
    → Sound (upsert_firing a e key at t).0.rows
unfolding upsert_firing refresh_firing
upsert_firing-Sound a e key at t s =
    let count = update_where-firing_count key (refresh e at) t.rows in
    let kept = Sound-Keeps key (refresh e at) t.rows (refresh-Keeps e at) s in
    elim (Bool-cases a.first_ok) [
      | inr e1 ↦ rw e1 s
      | inl e1 ↦ elim (Bool-cases (ltb 0 (firing_count key t.rows))) [
        | inl h ↦ rw (e1, count, h) kept
        | inr h ↦ elim (Bool-cases a.second_ok) [
          | inr e2 ↦ rw (e1, count, h, e2) s
          | inl e2 ↦
              let free = is_taken-firing_count key t.rows s.keyed ∙ h in
              rw (e1, count, h, e2, free) (Sound-new e key at t.next_id t.rows s free)
        ]
      ]
    ]

pub resolve-Sound :
    (a : Attempt) (key : String) (at : Time) (t : Table)
    → Sound t.rows
    → Sound (resolve a key at t).0.rows
unfolding resolve
resolve-Sound a key at t s = elim (Bool-cases a.first_ok) [
  | inl e ↦ rw e (record {
    keyed = keyed-close at key t.rows s.keyed;
    once = λ other. ground (arith, firing_count-close at key other t.rows, s.once other);
  })
  | inr e ↦ rw e s
]

pub touch-Sound :
    (a : Attempt) (key : String) (at : Time) (v : Option Float64) (t : Table)
    → Sound t.rows
    → Sound (touch a key at v t).rows
unfolding touch
touch-Sound a key at v t s = elim (Bool-cases a.first_ok) [
  | inl e ↦ rw e (Sound-Keeps key _ t.rows (touch-Keeps at v) s)
  | inr e ↦ rw e s
]

pub insert_silenced-Sound :
    (a : Attempt) (e : Row) (at : Time) (t : Table)
    → Sound t.rows
    → Sound (insert_silenced a e at t).rows
unfolding insert_silenced
insert_silenced-Sound a e at t s = elim (Bool-cases a.first_ok) [
  | inl ok ↦
      let new = silenced_row e at t.next_id in
      rw ok (record {
        keyed = All-append _ t.rows (new ∷ []) s.keyed (refl, tt);
        once = λ other. ground (
          arith,
          firing_count-append other t.rows new,
          is_firing-unkeyed other new refl,
          s.once other,
        );
      })
  | inr e ↦ rw e s
]
