-- ===== src/Base/Sort.antt =====
-- Insertion sort by a string, the way the program writes it out, and that it loses nothing.
use Prim.Native.String.{String}
use mathlib.Core.Path.{◌≡◌, refl, sym, subst}
use mathlib.Core.Logic.{◌⊎◌, inl, inr}
use mathlib.Core.Bool.{false}
use mathlib.Core.List.{
  List, [], ◌∷◌, ◌++◌, reverse, Perm, perm_middle, reverse_perm, append-nil, reverse_aux,
}
use mathlib.Core.List.Perm
use native.Mathlib.Omega.{arith}
use metalwatch.Base.Tests.{str_gt, if◌then◌else◌, Bool-cases}
use metalwatch.Base.Lists.{All, Among, found, later}
use metalwatch.Base.Text.{str_gt_asymm}

module _ {A : Type 0} (key : A → String) where
  -- The inner loop: `x` stands behind the sorted prefix (last element first) and is swapped forward
  -- past each element of a greater key.
  unfoldable pub sink : A → List A → List A
  sink x [] = x ∷ []
  sink x (p ∷ prefix) = if str_gt (key p) (key x) then p ∷ sink x prefix else x ∷ p ∷ prefix

  -- The outer loop, over the elements that are not yet in the prefix.
  unfoldable pub sort_loop : List A → List A → List A
  sort_loop prefix [] = prefix
  sort_loop prefix (x ∷ rest) = sort_loop (sink x prefix) rest

  unfoldable pub sort_by : List A → List A
  unfolding sort_loop sink
  sort_by rs = reverse (sort_loop [] rs)

  sink-perm : (x : A) (prefix : List A) → Perm (sink x prefix) (x ∷ prefix)
  unfolding sink
  sink-perm x [] = Perm.refl (x ∷ [])
  sink-perm x (p ∷ prefix) = elim (Bool-cases (str_gt (key p) (key x))) [
    | inl above ↦ rw above (Perm.trans (Perm.cons p (sink-perm x prefix)) (Perm.swap x p prefix))
    | inr below ↦ rw below (Perm.refl (x ∷ p ∷ prefix))
  ]

  sort_loop-perm : (prefix rs : List A) → Perm (sort_loop prefix rs) (rs ++ prefix)
  unfolding sort_loop
  sort_loop-perm prefix [] = Perm.refl prefix
  sort_loop-perm prefix (x ∷ rest) =
      Perm.trans (sort_loop-perm (sink x prefix) rest)
        (Perm.trans (Perm.append_left rest (sink-perm x prefix)) (perm_middle rest prefix))

  -- Every element stays, as often as it was given.
  pub sort_by-perm : (rs : List A) → Perm (sort_by rs) rs
  unfolding sort_by
  sort_by-perm rs =
      Perm.trans (reverse_perm (sort_loop [] rs))
        (Perm.trans (sort_loop-perm [] rs) (rw append-nil (Perm.refl rs)))

  -- Each element of a list stands before those of no smaller key.
  abbrev pub IsSortedBy : List A → Type 0
  IsSortedBy [] = Unit {0}
  IsSortedBy (x ∷ []) = Unit {0}
  IsSortedBy (x ∷ y ∷ rs) = (str_gt (key x) (key y) ≡ false) × IsSortedBy (y ∷ rs)

  -- The prefix of the loop, last element first.
  abbrev IsFalling : List A → Type 0
  IsFalling [] = Unit {0}
  IsFalling (x ∷ []) = Unit {0}
  IsFalling (x ∷ y ∷ rs) = (str_gt (key y) (key x) ≡ false) × IsFalling (y ∷ rs)

  sink-IsFalling : (x : A) (prefix : List A) → IsFalling prefix → IsFalling (sink x prefix)
  unfolding sink
  sink-IsFalling x [] h = tt
  sink-IsFalling x (p ∷ []) h = ground (arith, str_gt_asymm (key p) (key x))
  sink-IsFalling x (p ∷ q ∷ prefix) h =
      ground (arith, str_gt_asymm (key p) (key x), sink-IsFalling x (q ∷ prefix) h.1)

  sort_loop-IsFalling : (prefix rs : List A) → IsFalling prefix → IsFalling (sort_loop prefix rs)
  unfolding sort_loop
  sort_loop-IsFalling prefix [] h = h
  sort_loop-IsFalling prefix (x ∷ rest) h =
      sort_loop-IsFalling (sink x prefix) rest (sink-IsFalling x prefix h)

  abbrev Meet : List A → List A → Type 0
  Meet [] ys = Unit {0}
  Meet (x ∷ xs) [] = Unit {0}
  Meet (x ∷ xs) (y ∷ ys) = str_gt (key x) (key y) ≡ false

  reverse_aux-IsSortedBy :
      (xs ys : List A) → IsFalling xs → IsSortedBy ys → Meet xs ys → IsSortedBy (reverse_aux xs ys)
  reverse_aux-IsSortedBy [] ys f s m = s
  reverse_aux-IsSortedBy (x ∷ []) [] f s m = tt
  reverse_aux-IsSortedBy (x ∷ []) (y ∷ ys) f s m = (m, s)
  reverse_aux-IsSortedBy (x ∷ z ∷ xs) [] f s m = reverse_aux-IsSortedBy (z ∷ xs) (x ∷ []) f.1 tt f.0
  reverse_aux-IsSortedBy (x ∷ z ∷ xs) (y ∷ ys) f s m =
      reverse_aux-IsSortedBy (z ∷ xs) (x ∷ y ∷ ys) f.1 (m, s) f.0

  Meet-nil : (xs : List A) → Meet xs []
  Meet-nil [] = tt
  Meet-nil (x ∷ xs) = tt

  pub sort_by-IsSortedBy : (rs : List A) → IsSortedBy (sort_by rs) × Perm (sort_by rs) rs
  unfolding sort_by
  sort_by-IsSortedBy rs = (
    reverse_aux-IsSortedBy (sort_loop [] rs) [] (sort_loop-IsFalling [] rs tt) tt (Meet-nil _),
    sort_by-perm rs,
  )

  sink-All {κ} :
      (P : A → Type κ) (x : A) (prefix : List A) → P x → All P prefix → All P (sink x prefix)
  unfolding sink
  sink-All P x [] p h = (p, tt)
  sink-All P x (q ∷ prefix) p (h, k) = elim (Bool-cases (str_gt (key q) (key x))) [
    | inl above ↦ rw above (h, sink-All P x prefix p k)
    | inr below ↦ rw below (p, (h, k))
  ]

  sort_loop-All {κ} :
      (P : A → Type κ) (prefix rs : List A) → All P prefix → All P rs → All P (sort_loop prefix rs)
  unfolding sort_loop
  sort_loop-All P prefix [] h k = h
  sort_loop-All P prefix (x ∷ rest) h (k, l) =
      sort_loop-All P (sink x prefix) rest (sink-All P x prefix k h) l

  reverse_aux-All {κ} :
      (P : A → Type κ) (xs ys : List A) → All P xs → All P ys → All P (reverse_aux xs ys)
  reverse_aux-All P [] ys h k = k
  reverse_aux-All P (x ∷ xs) ys (h, l) k = reverse_aux-All P xs (x ∷ ys) l (h, k)

  -- What holds of every element holds of every one when they are sorted.
  pub sort_by-All {κ} : (P : A → Type κ) (rs : List A) → All P rs → All P (sort_by rs)
  unfolding sort_by
  sort_by-All P rs h = reverse_aux-All P (sort_loop [] rs) [] (sort_loop-All P [] rs tt h) tt

  sink-here : (x : A) (prefix : List A) → Among x (sink x prefix)
  unfolding sink
  sink-here x [] = found refl
  sink-here x (q ∷ prefix) = elim (Bool-cases (str_gt (key q) (key x))) [
    | inl above ↦ rw above (later (sink-here x prefix))
    | inr below ↦ rw below (found refl)
  ]

  sink-there : (y x : A) (prefix : List A) → Among y prefix → Among y (sink x prefix)
  unfolding sink
  sink-there y x [] m = elim m [ ]
  sink-there y x (q ∷ prefix) (found e) = elim (Bool-cases (str_gt (key q) (key x))) [
    | inl above ↦ rw above (found e)
    | inr below ↦ rw below (later (found e))
  ]
  sink-there y x (q ∷ prefix) (later m) = elim (Bool-cases (str_gt (key q) (key x))) [
    | inl above ↦ rw above (later (sink-there y x prefix m))
    | inr below ↦ rw below (later (later m))
  ]

  sort_loop-Among :
      (y : A) (prefix rs : List A) → Among y prefix ⊎ Among y rs → Among y (sort_loop prefix rs)
  unfolding sort_loop
  sort_loop-Among y prefix [] (inl m) = m
  sort_loop-Among y prefix [] (inr m) = elim m [ ]
  sort_loop-Among y prefix (x ∷ rest) (inl m) =
      sort_loop-Among y (sink x prefix) rest (inl (sink-there y x prefix m))
  sort_loop-Among y prefix (x ∷ rest) (inr (found e)) =
      sort_loop-Among y (sink x prefix) rest
        (inl (subst (λ (z : A). Among z (sink x prefix)) (sym e) (sink-here x prefix)))
  sort_loop-Among y prefix (x ∷ rest) (inr (later m)) =
      sort_loop-Among y (sink x prefix) rest (inr m)

  reverse_aux-Among :
      (y : A) (xs ys : List A) → Among y xs ⊎ Among y ys → Among y (reverse_aux xs ys)
  reverse_aux-Among y [] ys (inl m) = elim m [ ]
  reverse_aux-Among y [] ys (inr m) = m
  reverse_aux-Among y (x ∷ xs) ys (inl (found e)) = reverse_aux-Among y xs (x ∷ ys) (inr (found e))
  reverse_aux-Among y (x ∷ xs) ys (inl (later m)) = reverse_aux-Among y xs (x ∷ ys) (inl m)
  reverse_aux-Among y (x ∷ xs) ys (inr m) = reverse_aux-Among y xs (x ∷ ys) (inr (later m))

  pub sort_by-Among : (y : A) (rs : List A) → Among y rs → Among y (sort_by rs)
  unfolding sort_by
  sort_by-Among y rs m =
      reverse_aux-Among y (sort_loop [] rs) [] (inl (sort_loop-Among y [] rs (inr m)))
