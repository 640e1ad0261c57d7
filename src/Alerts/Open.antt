-- ===== src/Alerts/Open.antt =====
-- Which alarms are open: the rows that fire, by key. One statement after another keeps one row to a key.
use metalwatch.Base.{
  ℕ, suc, ◌≤◌, ◌≡◌, refl, sym, ap, ◌∙◌, String, Bool, true, false, ◌&&◌, Option, none, some, List,
  [], ◌∷◌, All, str_eq, eq_iff, if◌then◌else◌, Bool-cases, inl, inr, arith,
}
use metalwatch.Base.Clock.{Time}
use metalwatch.Alerts.{Row, has_key, is_firing, update_where, close_row}

-- How many rows fire under a key.
unfoldable pub firing_count : String → List Row → ℕ
firing_count key [] = 0
firing_count key (r ∷ rs) = let n = firing_count key rs in if is_firing key r then suc n else n

abbrev pub is_keyed : Option String → Bool
is_keyed none = false
is_keyed (some k) = true

-- A row has a key where it fires, and no two rows fire under one key.
pub record Sound (rows : List Row) : Type 0 where
  pub keyed : All (λ (r : Row). is_keyed r.active_key ≡ str_eq r.state "firing") rows
  pub once : (key : String) → firing_count key rows ≤ 1

-- What `update_where` does to the rows of a key, where the change leaves which row fires.
pub update_where-firing_count :
    (key : String) (f : Row → Row) (rows : List Row)
    → (update_where (is_firing key) f rows).1 ≡ firing_count key rows
unfolding update_where firing_count
update_where-firing_count key f [] = refl
update_where-firing_count key f (r ∷ rs) = ground (arith, update_where-firing_count key f rs)

-- A change that leaves the key and the state.
abbrev pub Keeps : (Row → Row) → Type 0
Keeps f = (r : Row) → ((f r).active_key ≡ r.active_key) × ((f r).state ≡ r.state)

Keeps-is_firing :
    (other : String) (f : Row → Row) (r : Row) → Keeps f → is_firing other (f r) ≡ is_firing other r
unfolding is_firing
Keeps-is_firing other f r k = rw (k r).0 (rw (k r).1 refl)

pub firing_count-Keeps :
    (key other : String) (f : Row → Row) (rows : List Row)
    → Keeps f
    → firing_count other (update_where (is_firing key) f rows).0 ≡ firing_count other rows
unfolding update_where firing_count
firing_count-Keeps key other f [] k = refl
firing_count-Keeps key other f (r ∷ rs) k =
    ground (arith, Keeps-is_firing other f r k, firing_count-Keeps key other f rs k)

keyed-Keeps :
    (key : String) (f : Row → Row) (rows : List Row)
    → Keeps f
    → All (λ (r : Row). is_keyed r.active_key ≡ str_eq r.state "firing") rows
    → All
        (λ (r : Row). is_keyed r.active_key ≡ str_eq r.state "firing")
        (update_where (is_firing key) f rows).0
unfolding update_where
keyed-Keeps key f [] k a = tt
keyed-Keeps key f (r ∷ rs) k a = elim (Bool-cases (is_firing key r)) [
  | inl e ↦ rw e (
    ap is_keyed (k r).0 ∙ a.0 ∙ ap (λ (s : String). str_eq s "firing") (sym (k r).1),
    keyed-Keeps key f rs k a.1,
  )
  | inr e ↦ rw e (a.0, keyed-Keeps key f rs k a.1)
]

pub Sound-Keeps :
    (key : String) (f : Row → Row) (rows : List Row)
    → Keeps f
    → Sound rows
    → Sound (update_where (is_firing key) f rows).0
Sound-Keeps key f rows k s = record {
  keyed = keyed-Keeps key f rows k s.keyed;
  once = λ other. rw (firing_count-Keeps key other f rows k) (s.once other);
}

is_firing-close_row :
    (at : Time) (other : String) (r : Row) → is_firing other (close_row at r) ≡ false
unfolding is_firing close_row
is_firing-close_row at other r = refl

is_firing-other :
    (key other : String) (r : Row) → is_firing key r ≡ true → is_firing other r ≡ str_eq key other
unfolding is_firing
is_firing-other key other r h = go r.active_key h
  where
    go :
        (k : Option String)
        → (has_key key k && str_eq r.state "firing") ≡ true
        → (has_key other k && str_eq r.state "firing") ≡ str_eq key other
    go none e = ground arith
    go (some k) e = ground (arith, eq_iff k key, eq_iff k other, eq_iff key other)

pub firing_count-close :
    (at : Time) (key other : String) (rows : List Row)
    → firing_count other (update_where (is_firing key) (close_row at) rows).0
      ≡ (if str_eq key other then 0 else firing_count other rows)
unfolding update_where firing_count
firing_count-close at key other [] = ground arith
firing_count-close at key other (r ∷ rs) = elim (Bool-cases (is_firing key r)) [
  | inl e ↦ ground (
    arith,
    e,
    is_firing-close_row at other r,
    is_firing-other key other r e,
    firing_count-close at key other rs,
  )
  | inr e ↦ ground (arith, e, eq_iff key other, firing_count-close at key other rs)
]

pub keyed-close :
    (at : Time) (key : String) (rows : List Row)
    → All (λ (r : Row). is_keyed r.active_key ≡ str_eq r.state "firing") rows
    → All
        (λ (r : Row). is_keyed r.active_key ≡ str_eq r.state "firing")
        (update_where (is_firing key) (close_row at) rows).0
unfolding update_where close_row
keyed-close at key [] a = tt
keyed-close at key (r ∷ rs) a = elim (Bool-cases (is_firing key r)) [
  | inl e ↦ rw e (refl, keyed-close at key rs a.1)
  | inr e ↦ rw e (a.0, keyed-close at key rs a.1)
]
