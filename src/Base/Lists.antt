-- ===== src/Base/Lists.antt =====
-- Arrays as lists with native indices: C arrays, spans and byte buffers.
use Prim.Native.Nat.{ℕ, zero, suc, ◌+◌, ◌-◌, ◌≤◌, ◌<◌}
use mathlib.Core.Path.{◌≡◌, refl, sym, ap, ◌∙◌}
use mathlib.Core.List.{List, [], ◌∷◌, ◌++◌}
use mathlib.Core.Bool.{Bool, true, false, ◌&&◌}
use native.Mathlib.Omega.{arith}

module _ {ℓ} {A : Type ℓ} where
  abbrev pub length : List A → ℕ
  length [] = 0
  length (x ∷ xs) = suc (length xs)

  abbrev pub get_or : List A → ℕ → A → A
  get_or [] i d = d
  get_or (x ∷ xs) zero d = x
  get_or (x ∷ xs) (suc i) d = get_or xs i d

  -- A write out of bounds changes nothing.
  abbrev pub set : List A → ℕ → A → List A
  set [] i v = []
  set (x ∷ xs) zero v = v ∷ xs
  set (x ∷ xs) (suc i) v = x ∷ set xs i v

  abbrev pub take : ℕ → List A → List A
  take zero xs = []
  take (suc n) [] = []
  take (suc n) (x ∷ xs) = x ∷ take n xs

  abbrev pub drop : ℕ → List A → List A
  drop zero xs = xs
  drop (suc n) [] = []
  drop (suc n) (x ∷ xs) = drop n xs

  abbrev pub replicate : ℕ → A → List A
  replicate zero a = []
  replicate (suc n) a = a ∷ replicate n a

  abbrev pub all : (A → Bool) → List A → Bool
  all p [] = true
  all p (x ∷ xs) = p x && all p xs

  abbrev pub All {κ} : (A → Type κ) → List A → Type κ
  All P [] = Unit
  All P (x ∷ xs) = P x × All P xs

-- `std::span::subspan(offset, count)`.
abbrev pub subspan {ℓ} : {A : Type ℓ} → List A → ℕ → ℕ → List A
subspan xs offset count = take count (drop offset xs)

module _ {ℓ} {A : Type ℓ} where
  pub length-append : (xs ys : List A) → length (xs ++ ys) ≡ length xs + length ys
  length-append [] ys = omega arith
  length-append (x ∷ xs) ys = omega (arith, length-append xs ys)

  pub length-set : (xs : List A) (i : ℕ) (v : A) → length (set xs i v) ≡ length xs
  length-set [] i v = refl
  length-set (x ∷ xs) zero v = refl
  length-set (x ∷ xs) (suc i) v = ap suc (length-set xs i v)

  pub length-take : (n : ℕ) (xs : List A) → n ≤ length xs → length (take n xs) ≡ n
  length-take zero xs h = refl
  length-take (suc n) [] h = absurd (omega arith)
  length-take (suc n) (x ∷ xs) h = ap suc (length-take n xs (omega arith))

  pub length-drop : (n : ℕ) (xs : List A) → length (drop n xs) ≡ length xs - n
  length-drop zero xs = omega arith
  length-drop (suc n) [] = omega arith
  length-drop (suc n) (x ∷ xs) = omega (arith, length-drop n xs)

  pub length-replicate : (n : ℕ) (a : A) → length (replicate n a) ≡ n
  length-replicate zero a = refl
  length-replicate (suc n) a = ap suc (length-replicate n a)

  pub take_left : (xs ys : List A) → take (length xs) (xs ++ ys) ≡ xs
  take_left [] ys = refl
  take_left (x ∷ xs) ys = ap (λ t. x ∷ t) (take_left xs ys)

  pub drop_left : (xs ys : List A) → drop (length xs) (xs ++ ys) ≡ ys
  drop_left [] ys = refl
  drop_left (x ∷ xs) ys = drop_left xs ys

  pub take_all : (xs : List A) → take (length xs) xs ≡ xs
  take_all [] = refl
  take_all (x ∷ xs) = ap (λ t. x ∷ t) (take_all xs)

  pub take-append-drop : (n : ℕ) (xs : List A) → take n xs ++ drop n xs ≡ xs
  take-append-drop zero xs = refl
  take-append-drop (suc n) [] = refl
  take-append-drop (suc n) (x ∷ xs) = ap (λ t. x ∷ t) (take-append-drop n xs)

  -- A write just behind a prefix replaces the element that follows it.
  pub set-append-drop :
      (pre out : List A) (n : ℕ) (v : A)
      → n < length out
      → set (pre ++ drop n out) (length pre) v ≡ (pre ++ (v ∷ [])) ++ drop (suc n) out
  set-append-drop [] [] n v h = absurd (omega arith)
  set-append-drop [] (x ∷ out) zero v h = refl
  set-append-drop [] (x ∷ out) (suc n) v h = set-append-drop [] out n v (omega arith)
  set-append-drop (p ∷ pre) out n v h = ap (λ t. p ∷ t) (set-append-drop pre out n v h)

  pub get_or-append_left :
      (xs ys : List A) (i : ℕ) (d : A) → i < length xs → get_or (xs ++ ys) i d ≡ get_or xs i d
  get_or-append_left [] ys i d h = absurd (omega arith)
  get_or-append_left (x ∷ xs) ys zero d h = refl
  get_or-append_left (x ∷ xs) ys (suc i) d h = get_or-append_left xs ys i d (omega arith)

  pub drop-cong : (m n : ℕ) (xs : List A) → m ≡ n → drop m xs ≡ drop n xs
  drop-cong m n xs e = ap (λ k. drop k xs) e

  drop-nil : (n : ℕ) → drop {A = A} n [] ≡ []
  drop-nil zero = refl
  drop-nil (suc n) = refl

  pub drop-drop : (m n : ℕ) (xs : List A) → drop n (drop m xs) ≡ drop (m + n) xs
  drop-drop zero n xs = drop-cong n (0 + n) xs (omega arith)
  drop-drop (suc m) zero [] = sym (drop-nil (suc m + zero))
  drop-drop (suc m) (suc n) [] = sym (drop-nil (suc m + suc n))
  drop-drop (suc m) n (x ∷ xs) =
      drop-drop m n xs ∙ drop-cong (suc (m + n)) (suc m + n) (x ∷ xs) (omega arith)

  pub take_all_of : (n : ℕ) (xs : List A) → n ≡ length xs → take n xs ≡ xs
  take_all_of n xs e = ap (λ k. take k xs) e ∙ take_all xs

  pub drop_left_of : (n : ℕ) (xs ys : List A) → n ≡ length xs → drop n (xs ++ ys) ≡ ys
  drop_left_of n xs ys e = ap (λ k. drop k (xs ++ ys)) e ∙ drop_left xs ys

  pub take_left_of : (n : ℕ) (xs ys : List A) → n ≡ length xs → take n (xs ++ ys) ≡ xs
  take_left_of n xs ys e = ap (λ k. take k (xs ++ ys)) e ∙ take_left xs ys

  pub All-get_or {κ} :
      (P : A → Type κ) (xs : List A) (i : ℕ) (d : A) → All P xs → i < length xs → P (get_or xs i d)
  All-get_or P [] i d h lt = absurd (omega arith)
  All-get_or P (x ∷ xs) zero d h lt = h.0
  All-get_or P (x ∷ xs) (suc i) d h lt = All-get_or P xs i d h.1 (omega arith)

  pub drop-get_or :
      (i : ℕ) (d : A) (xs : List A) → i < length xs → get_or xs i d ∷ drop (suc i) xs ≡ drop i xs
  drop-get_or i d [] h = absurd (omega arith)
  drop-get_or zero d (x ∷ xs) h = refl
  drop-get_or (suc i) d (x ∷ xs) h = drop-get_or i d xs (omega arith)

-- `std::ranges::copy(bytes, out + at)`.
unfoldable pub copy_at {ℓ} : {A : Type ℓ} → List A → ℕ → List A → List A
copy_at out at [] = out
copy_at out at (b ∷ bytes) = copy_at (set out at b) (at + 1) bytes

module _ {ℓ} {A : Type ℓ} where
  copy_at-suc :
      (x : A) (xs : List A) (i j : ℕ) (bytes : List A)
      → j ≡ suc i
      → copy_at (x ∷ xs) j bytes ≡ x ∷ copy_at xs i bytes
  unfolding copy_at
  copy_at-suc x xs i j [] e = refl
  copy_at-suc x xs i j (b ∷ bytes) e =
      ap (λ k. copy_at (set (x ∷ xs) k b) (j + 1) bytes) e
      ∙ copy_at-suc x (set xs i b) (i + 1) (j + 1) bytes (omega arith)

  -- The copied bytes are read back from the front.
  pub take-copy_at :
      (out bytes : List A)
      → length bytes ≤ length out
      → take (length bytes) (copy_at out 0 bytes) ≡ bytes
  unfolding copy_at
  take-copy_at out [] h = refl
  take-copy_at [] (b ∷ bytes) h = absurd (omega arith)
  take-copy_at (x ∷ out) (b ∷ bytes) h =
      ap (take (suc (length bytes))) (copy_at-suc b out 0 1 bytes refl)
      ∙ ap (λ t. b ∷ t) (take-copy_at out bytes (omega arith))

  pub length-copy_at :
      (out : List A) (at : ℕ) (bytes : List A) → length (copy_at out at bytes) ≡ length out
  unfolding copy_at
  length-copy_at out at [] = refl
  length-copy_at out at (b ∷ bytes) =
      length-copy_at (set out at b) (at + 1) bytes ∙ length-set out at b

-- `empty()`.
abbrev pub is_empty {ℓ} : {A : Type ℓ} → List A → Bool
is_empty [] = true
is_empty (x ∷ xs) = false

abbrev pub reverse {ℓ} : {A : Type ℓ} → List A → List A
reverse [] = []
reverse (x ∷ xs) = reverse xs ++ (x ∷ [])
