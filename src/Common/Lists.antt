-- ===== src/Common/Lists.antt =====
-- Lists measured by native numbers, and predicates over their elements.
use Prim.Native.Nat.{ℕ, zero, suc, ◌+◌}
use mathlib.Core.Path.{◌≡◌}
use mathlib.Core.Logic.{◌≢◌, ◌↔◌}
use mathlib.Core.List.{List, [], ◌∷◌, ◌++◌}
use native.Mathlib.Omega.{arith}

module _ {ℓ} {A : Type ℓ} where
  abbrev pub length : List A → ℕ
  length [] = 0
  length (x ∷ xs) = suc (length xs)

  pub length-append : (xs ys : List A) → length (xs ++ ys) ≡ length xs + length ys
  length-append [] ys = omega arith
  length-append (x ∷ xs) ys = omega (arith, length-append xs ys)

  abbrev pub get_or : List A → ℕ → A → A
  get_or [] i d = d
  get_or (x ∷ xs) zero d = x
  get_or (x ∷ xs) (suc i) d = get_or xs i d

  abbrev pub take : ℕ → List A → List A
  take zero xs = []
  take (suc n) [] = []
  take (suc n) (x ∷ xs) = x ∷ take n xs

  abbrev pub drop : ℕ → List A → List A
  drop zero xs = xs
  drop (suc n) [] = []
  drop (suc n) (x ∷ xs) = drop n xs

module _ {ℓ κ} {A : Type ℓ} (P : A → Type κ) where
  abbrev pub All : List A → Type κ
  All [] = Unit
  All (x ∷ xs) = P x × All xs

  pub All-append : (xs ys : List A) → All xs → All ys → All (xs ++ ys)
  All-append [] ys hx hy = hy
  All-append (x ∷ xs) ys hx hy = (hx.0, All-append xs ys hx.1 hy)

module _ {ℓ} {A : Type ℓ} where
  -- No element of one list stands in the other.
  abbrev pub AreDisjoint : List A → List A → Type ℓ
  AreDisjoint xs ys = All (λ x. All (λ y. x ≢ y) ys) xs

  abbrev pub IsDistinct : List A → Type ℓ
  IsDistinct [] = Unit
  IsDistinct (x ∷ xs) = All (λ y. x ≢ y) xs × IsDistinct xs

  pub All-split {κ} : (P : A → Type κ) (xs ys : List A) → All P (xs ++ ys) → All P xs × All P ys
  All-split P [] ys h = (tt, h)
  All-split P (x ∷ xs) ys h = let (a, b) = All-split P xs ys h.1 in ((h.0, a), b)

  IsDistinct-split :
      (xs ys : List A) → IsDistinct (xs ++ ys) → IsDistinct xs × IsDistinct ys × AreDisjoint xs ys
  IsDistinct-split [] ys h = (tt, h, tt)
  IsDistinct-split (x ∷ xs) ys h =
      let (here, there) = All-split (λ y. x ≢ y) xs ys h.0 in
      let (left, right, apart) = IsDistinct-split xs ys h.1 in ((here, left), right, (there, apart))

  IsDistinct-join :
      (xs ys : List A) → IsDistinct xs → IsDistinct ys → AreDisjoint xs ys → IsDistinct (xs ++ ys)
  IsDistinct-join [] ys h k d = k
  IsDistinct-join (x ∷ xs) ys h k d =
      (All-append (λ y. x ≢ y) xs ys h.0 d.0, IsDistinct-join xs ys h.1 k d.1)

  pub IsDistinct-append_iff :
      (xs ys : List A) → IsDistinct (xs ++ ys) ↔ (IsDistinct xs × IsDistinct ys × AreDisjoint xs ys)
  IsDistinct-append_iff xs ys = (IsDistinct-split xs ys, λ (h, k, d). IsDistinct-join xs ys h k d)

  AreDisjoint-split :
      (xs ys zs : List A) → AreDisjoint xs (ys ++ zs) → AreDisjoint xs ys × AreDisjoint xs zs
  AreDisjoint-split [] ys zs h = (tt, tt)
  AreDisjoint-split (x ∷ xs) ys zs h =
      let (a, b) = All-split (λ y. x ≢ y) ys zs h.0 in
      let (as', bs) = AreDisjoint-split xs ys zs h.1 in ((a, as'), (b, bs))

  AreDisjoint-join :
      (xs ys zs : List A) → AreDisjoint xs ys → AreDisjoint xs zs → AreDisjoint xs (ys ++ zs)
  AreDisjoint-join [] ys zs h k = tt
  AreDisjoint-join (x ∷ xs) ys zs h k =
      (All-append (λ y. x ≢ y) ys zs h.0 k.0, AreDisjoint-join xs ys zs h.1 k.1)

  pub AreDisjoint-append_iff :
      (xs ys zs : List A) → AreDisjoint xs (ys ++ zs) ↔ (AreDisjoint xs ys × AreDisjoint xs zs)
  AreDisjoint-append_iff xs ys zs =
      (AreDisjoint-split xs ys zs, λ (h, k). AreDisjoint-join xs ys zs h k)

  pub AreDisjoint-one_iff : (xs : List A) (y : A) → AreDisjoint xs (y ∷ []) ↔ All (λ x. x ≢ y) xs
  AreDisjoint-one_iff [] y = (λ _. tt, λ _. tt)
  AreDisjoint-one_iff (x ∷ xs) y = (
    λ h. (h.0.0, (AreDisjoint-one_iff xs y).0 h.1),
    λ h. ((h.0, tt), (AreDisjoint-one_iff xs y).1 h.1),
  )
