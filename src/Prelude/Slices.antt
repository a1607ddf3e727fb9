-- ===== src/Prelude/Slices.antt =====
-- Slices of arrays, and one array copied into another.
use Prim.Native.Nat.{ℕ, zero, suc, ◌+◌, ◌-◌, ◌≤◌, min}
use mathlib.Core.Path.{◌≡◌, refl, ap}
use mathlib.Core.List.{List, [], ◌∷◌, ◌++◌}
use native.Mathlib.Omega.{arith}
use uchos.Prelude.Lists.{length, take, drop, take-nil}

module _ {ℓ} {A : Type ℓ} where
  -- `memcpy(buffer + offset, bytes, length)`.
  abbrev pub copy : List A → ℕ → List A → List A
  copy buffer offset bytes = take offset buffer ++ bytes ++ drop (offset + length bytes) buffer

  pub length-drop : (n : ℕ) (xs : List A) → length (drop n xs) ≡ length xs - n
  length-drop zero xs = omega arith
  length-drop (suc n) [] = omega arith
  length-drop (suc n) (x ∷ xs) = omega (arith, length-drop n xs)

  pub take-append :
      (n : ℕ) (xs ys : List A) → take n (xs ++ ys) ≡ take n xs ++ take (n - length xs) ys
  take-append n [] ys =
      let e : n - 0 ≡ n = omega arith in
      let f : take {A = A} n [] ≡ [] = take-nil A n in rw (e, f) refl
  take-append zero (x ∷ xs) ys = let e : 0 - suc (length xs) ≡ 0 = omega arith in rw e refl
  take-append (suc n) (x ∷ xs) ys =
      let e : suc n - suc (length xs) ≡ n - length xs = omega arith in
      rw e (ap (◌∷◌ x) (take-append n xs ys))

  pub take_self : (n : ℕ) (xs : List A) → length xs ≤ n → take n xs ≡ xs
  take_self zero [] h = refl
  take_self zero (x ∷ xs) h = absurd (omega (arith, h))
  take_self (suc n) [] h = refl
  take_self (suc n) (x ∷ xs) h = ap (◌∷◌ x) (take_self n xs (omega (arith, h)))

  pub take-min : (n : ℕ) (xs : List A) → take (min (length xs) n) xs ≡ take n xs
  take-min zero xs = let e : min (length xs) 0 ≡ 0 = omega arith in rw e refl
  take-min (suc n) [] = take-nil A (min 0 (suc n))
  take-min (suc n) (x ∷ xs) =
      let e : min (suc (length xs)) (suc n) ≡ suc (min (length xs) n) = omega arith in
      rw e (ap (◌∷◌ x) (take-min n xs))

  pub drop_all : (n : ℕ) (xs : List A) → length xs ≤ n → drop n xs ≡ []
  drop_all zero [] h = refl
  drop_all zero (x ∷ xs) h = absurd (omega (arith, h))
  drop_all (suc n) [] h = refl
  drop_all (suc n) (x ∷ xs) h = drop_all n xs (omega (arith, h))

  pub drop-append : (xs ys : List A) (n : ℕ) → drop (length xs + n) (xs ++ ys) ≡ drop n ys
  drop-append [] ys n = let e : 0 + n ≡ n = omega arith in rw e refl
  drop-append (x ∷ xs) ys n =
      let e : suc (length xs) + n ≡ suc (length xs + n) = omega arith in rw e (drop-append xs ys n)

  pub take-append_self : (xs ys : List A) → take (length xs) (xs ++ ys) ≡ xs
  take-append_self [] ys = refl
  take-append_self (x ∷ xs) ys = ap (◌∷◌ x) (take-append_self xs ys)

  -- A copy to the place where `xs` ends.
  pub copy-append :
      (xs ys bytes : List A)
      → copy (xs ++ ys) (length xs) bytes ≡ (xs ++ bytes) ++ drop (length bytes) ys
  copy-append xs ys bytes = rw (take-append_self xs ys) (rw (drop-append xs ys (length bytes)) refl)

  -- Two slices, one behind the other.
  pub take-drop_add :
      (m n k : ℕ) (xs : List A)
      → take m (drop k xs) ++ take n (drop (k + m) xs) ≡ take (m + n) (drop k xs)
  take-drop_add m n (suc k) [] =
      let e : suc k + m ≡ suc (k + m) = omega arith in
      rw (e, take-nil A m, take-nil A n, take-nil A (m + n)) refl
  take-drop_add m n (suc k) (x ∷ xs) =
      let e : suc k + m ≡ suc (k + m) = omega arith in rw e (take-drop_add m n k xs)
  take-drop_add zero n zero xs = let e : 0 + n ≡ n = omega arith in rw e refl
  take-drop_add (suc m) n zero [] =
      let e : 0 + suc m ≡ suc m = omega arith in
      let f : suc m + n ≡ suc (m + n) = omega arith in rw (e, f, take-nil A n) refl
  take-drop_add (suc m) n zero (x ∷ xs) =
      let e : 0 + suc m ≡ suc (0 + m) = omega arith in
      let f : suc m + n ≡ suc (m + n) = omega arith in
      rw (e, f) (ap (◌∷◌ x) (take-drop_add m n zero xs))
