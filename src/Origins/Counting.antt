-- ===== src/Origins/Counting.antt =====
-- How `count_below` changes with its list and its bound.
use ffi_rpc.Base.{
  ℕ, zero, suc, ◌+◌, ◌<◌, ◌≤◌, ◌≡◌, refl, List, [], ◌∷◌, ◌++◌, some, nat_beq, if◌then◌else◌,
  get_elem?, set, length, count_below, arith, All, All-mono, take, Bool-cases, inl, inr, subst,
  nat_eq, ◌==◌, nat_beq_iff,
}

abbrev pub bit : ℕ → ℕ → ℕ
bit x a = if nat_beq x a then 1 else 0

pub count_below_zero : (xs : List ℕ) (a : ℕ) → count_below xs 0 a ≡ 0
count_below_zero [] a = refl
count_below_zero (x ∷ xs) a = refl

pub count_below-suc :
    (xs : List ℕ) (n a u : ℕ)
    → get_elem? xs n ≡ some u
    → count_below xs (suc n) a ≡ count_below xs n a + bit u a
count_below-suc [] n a u h = absurd (ground arith)
count_below-suc (x ∷ xs) zero a u h = ground (arith, count_below_zero xs a)
count_below-suc (x ∷ xs) (suc n) a u h = omega (arith, count_below-suc xs n a u h)

pub count_below-set :
    (xs : List ℕ) (i n a u v : ℕ)
    → get_elem? xs i ≡ some u
    → i < n
    → count_below (set xs i v) n a + bit u a ≡ count_below xs n a + bit v a
count_below-set [] i n a u v h l = absurd (ground arith)
count_below-set (x ∷ xs) i zero a u v h l = absurd (omega arith)
count_below-set (x ∷ xs) zero (suc n) a u v h l = ground arith
count_below-set (x ∷ xs) (suc i) (suc n) a u v h l =
    omega (arith, count_below-set xs i n a u v h (omega arith))

pub count_below-set_above :
    (xs : List ℕ) (i n a v : ℕ) → n ≤ i → count_below (set xs i v) n a ≡ count_below xs n a
count_below-set_above [] i n a v h = refl
count_below-set_above (x ∷ xs) zero zero a v h = refl
count_below-set_above (x ∷ xs) zero (suc n) a v h = absurd (omega arith)
count_below-set_above (x ∷ xs) (suc i) zero a v h = refl
count_below-set_above (x ∷ xs) (suc i) (suc n) a v h =
    omega (arith, count_below-set_above xs i n a v (omega arith))

pub count_below-append :
    (xs ys : List ℕ) (n a : ℕ) → n ≤ length xs → count_below (xs ++ ys) n a ≡ count_below xs n a
count_below-append [] ys zero a h = count_below_zero ys a
count_below-append [] ys (suc n) a h = absurd (omega arith)
count_below-append (x ∷ xs) ys zero a h = refl
count_below-append (x ∷ xs) ys (suc n) a h =
    omega (arith, count_below-append xs ys n a (omega arith))

pub take-counted : (xs : List ℕ) (n : ℕ) → All (λ a. 0 < count_below xs n a) (take n xs)
take-counted [] zero = tt
take-counted [] (suc n) = tt
take-counted (x ∷ xs) zero = tt
take-counted (x ∷ xs) (suc n) =
    (ground arith, All-mono (take n xs) (λ a h. omega (arith, h)) (take-counted xs n))

pub All-counted {κ} :
    (P : ℕ → Type κ) (xs : List ℕ) (n a : ℕ) → All P (take n xs) → 0 < count_below xs n a → P a
All-counted P [] zero a h c = absurd (omega (arith, c))
All-counted P [] (suc n) a h c = absurd (omega (arith, c))
All-counted P (x ∷ xs) zero a h c = absurd (omega (arith, c))
All-counted P (x ∷ xs) (suc n) a h c = elim (Bool-cases (x == a)) [
  | inl hit ↦ subst P ((nat_beq_iff x a).0 hit) h.0
  | inr miss ↦ All-counted P xs n a h.1 (ground (arith, c))
]
