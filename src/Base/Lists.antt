-- ===== src/Base/Lists.antt =====
-- Lists measured by native numbers, and the predicate that holds of every element.
use Prim.Native.Nat.{◌≤◌, ℕ, zero, suc, ◌+◌, ◌-◌}
use mathlib.Core.Path.{◌∙◌, sym, ◌≡◌, refl, ap}
use mathlib.Core.Logic.{◌⊎◌, inl, inr}
use mathlib.Core.List.{List, [], ◌∷◌, ◌++◌}
use native.Mathlib.Omega.{arith}

module _ {ℓ} {A : Type ℓ} where
  abbrev pub length : List A → ℕ
  length [] = 0
  length (x ∷ xs) = suc (length xs)

  pub length-append : (xs ys : List A) → length (xs ++ ys) ≡ length xs + length ys
  length-append [] ys = omega arith
  length-append (x ∷ xs) ys = omega (arith, length-append xs ys)

  abbrev pub All {κ} : (A → Type κ) → List A → Type κ
  All P [] = Unit {κ}
  All P (x ∷ xs) = P x × All P xs

  pub All-append {κ} : (P : A → Type κ) (xs ys : List A) → All P xs → All P ys → All P (xs ++ ys)
  All-append P [] ys h k = k
  All-append P (x ∷ xs) ys h k = (h.0, All-append P xs ys h.1 k)

  abbrev pub take : ℕ → List A → List A
  take zero xs = []
  take (suc n) [] = []
  take (suc n) (x ∷ xs) = x ∷ take n xs

  abbrev pub drop : ℕ → List A → List A
  drop zero xs = xs
  drop (suc n) [] = []
  drop (suc n) (x ∷ xs) = drop n xs

  pub length-without :
      (before after : List A) (x : A)
      → length (before ++ x ∷ after) ≡ suc (length (before ++ after))
  length-without before after x =
      omega (arith, length-append before (x ∷ after), length-append before after)

  pub All-without {κ} :
      (P : A → Type κ) (before after : List A) (x : A)
      → All P (before ++ x ∷ after)
      → All P (before ++ after)
  All-without P [] after x a = a.1
  All-without P (b ∷ before) after x a = (a.0, All-without P before after x a.1)

  pub All-there {κ} :
      (P : A → Type κ) (before after : List A) (x : A) → All P (before ++ x ∷ after) → P x
  All-there P [] after x a = a.0
  All-there P (b ∷ before) after x a = All-there P before after x a.1

  pub All-swap {κ} :
      (P : A → Type κ) (before after : List A) (x y : A)
      → (P x → P y)
      → All P (before ++ x ∷ after)
      → All P (before ++ y ∷ after)
  All-swap P [] after x y f a = (f a.0, a.1)
  All-swap P (b ∷ before) after x y f a = (a.0, All-swap P before after x y f a.1)

  pub length-drop : (n : ℕ) (xs : List A) → length (drop n xs) ≡ length xs - n
  length-drop zero xs = omega arith
  length-drop (suc n) [] = omega arith
  length-drop (suc n) (x ∷ xs) = omega (arith, length-drop n xs)

  pub take-append-drop : (n : ℕ) (xs : List A) → take n xs ++ drop n xs ≡ xs
  take-append-drop zero xs = refl
  take-append-drop (suc n) [] = refl
  take-append-drop (suc n) (x ∷ xs) = ap (◌∷◌ x) (take-append-drop n xs)

pub All-map {ℓ κ μ} :
    {A : Type ℓ} {P : A → Type κ} {Q : A → Type μ} (xs : List A)
    → ((x : A) → P x → Q x)
    → All P xs
    → All Q xs
All-map [] f h = tt
All-map (x ∷ xs) f h = (f x h.0, All-map xs f h.1)

module _ {ℓ} {A : Type ℓ} where
  pub take-take : (m n : ℕ) (xs : List A) → m ≤ n → take m (take n xs) ≡ take m xs
  take-take zero n xs h = refl
  take-take (suc m) zero xs h = absurd (omega arith)
  take-take (suc m) (suc n) [] h = refl
  take-take (suc m) (suc n) (x ∷ xs) h = ap (◌∷◌ x) (take-take m n xs (omega arith))

  take-nil : (n : ℕ) → take {A = A} n [] ≡ []
  take-nil zero = refl
  take-nil (suc n) = refl

  drop-nil : (n : ℕ) → drop {A = A} n [] ≡ []
  drop-nil zero = refl
  drop-nil (suc n) = refl

  pub take-add : (m n : ℕ) (xs : List A) → take m xs ++ take n (drop m xs) ≡ take (m + n) xs
  take-add zero n xs = let e : 0 + n ≡ n = omega arith in rw e
  take-add (suc m) n [] = take-nil n ∙ sym (take-nil (suc m + n))
  take-add (suc m) n (x ∷ xs) =
      let e : suc m + n ≡ suc (m + n) = omega arith in rw e (ap (◌∷◌ x) (take-add m n xs))

  pub drop-add : (m n : ℕ) (xs : List A) → drop n (drop m xs) ≡ drop (m + n) xs
  drop-add zero n xs = let e : 0 + n ≡ n = omega arith in rw e
  drop-add (suc m) n [] = drop-nil n ∙ sym (drop-nil (suc m + n))
  drop-add (suc m) n (x ∷ xs) =
      let e : suc m + n ≡ suc (m + n) = omega arith in rw e (drop-add m n xs)

  pub length-take-length : (n : ℕ) (xs : List A) → length (take n xs) ≤ length xs
  length-take-length zero xs = omega arith
  length-take-length (suc n) [] = omega arith
  length-take-length (suc n) (x ∷ xs) = omega (arith, length-take-length n xs)

  pub length-take-le : (n : ℕ) (xs : List A) → length (take n xs) ≤ n
  length-take-le zero xs = omega arith
  length-take-le (suc n) [] = omega arith
  length-take-le (suc n) (x ∷ xs) = omega (arith, length-take-le n xs)

pub List-cases {ℓ} :
    {A : Type ℓ} (xs : List A) → (xs ≡ []) ⊎ ((x : A) × (rest : List A) × (xs ≡ x ∷ rest))
List-cases [] = inl refl
List-cases (x ∷ xs) = inr (x, xs, refl)

module _ {ℓ} {A : Type ℓ} where
  -- Some of a list, in order.
  pub data Sublist : List A → List A → Type ℓ where
    done : Sublist [] []
    keep : {x : A} {xs ys : List A} → Sublist xs ys → Sublist (x ∷ xs) (x ∷ ys)
    skip : {y : A} {xs ys : List A} → Sublist xs ys → Sublist xs (y ∷ ys)

  pub Sublist-skips : {xs ys : List A} (zs : List A) → Sublist xs ys → Sublist xs (ys ++ zs)
  Sublist-skips [] done = done
  Sublist-skips (z ∷ zs) done = skip (Sublist-skips zs done)
  Sublist-skips zs (keep s) = keep (Sublist-skips zs s)
  Sublist-skips zs (skip s) = skip (Sublist-skips zs s)

  pub Sublist-keeps :
      {xs ys : List A} (z : A) → Sublist xs ys → Sublist (xs ++ (z ∷ [])) (ys ++ (z ∷ []))
  Sublist-keeps z done = keep done
  Sublist-keeps z (keep s) = keep (Sublist-keeps z s)
  Sublist-keeps z (skip s) = skip (Sublist-keeps z s)

module _ {ℓ} {A : Type ℓ} where
  -- An element of a list, with its place.
  pub data Among (a : A) : List A → Type ℓ where
    found : {x : A} {xs : List A} → a ≡ x → Among a (x ∷ xs)
    later : {x : A} {xs : List A} → Among a xs → Among a (x ∷ xs)
