-- ===== src/Graphics/CString.antt =====
-- A character array read as a C string: what `std::string` copies from a `const char*`.
use android_device_xenvm.Base.{
  ℕ, zero, suc, ◌≤◌, ◌≡◌, refl, List, [], ◌∷◌, arith, ◌==◌, if◌then◌else◌, length, take, replicate,
  ◌++◌, All, ◌≢◌,
}

-- `array[i] = c`; the caller has tested the index.
unfoldable pub put : ℕ → ℕ → List ℕ → List ℕ
put i c [] = []
put zero c (x ∷ xs) = c ∷ xs
put (suc i) c (x ∷ xs) = x ∷ put i c xs

-- The characters before the first NUL.
unfoldable pub c_string : List ℕ → List ℕ
c_string [] = []
c_string (x ∷ xs) = if x == 0 then [] else (x ∷ c_string xs)

-- With a NUL stored at place n, what is read is the part of the first n characters before their
-- own first NUL: nothing behind place n is looked at.
pub c_string-put : (n : ℕ) (xs : List ℕ) → c_string (put n 0 xs) ≡ c_string (take n xs)
unfolding c_string put
c_string-put zero [] = refl
c_string-put zero (x ∷ xs) = refl
c_string-put (suc n) [] = refl
c_string-put (suc n) (x ∷ xs) = ground (arith, c_string-put n xs)

pub length-c_string-le : (xs : List ℕ) → length (c_string xs) ≤ length xs
unfolding c_string
length-c_string-le [] = omega arith
length-c_string-le (x ∷ xs) = ground (arith, length-c_string-le xs)

-- A C string holds no NUL.
pub All-c_string : (xs : List ℕ) → All (λ c. c ≢ 0) (c_string xs)
unfolding c_string
All-c_string [] = tt
All-c_string (x ∷ xs) = ground (arith, All-c_string xs)

-- Zeros behind the characters are not read.
pub c_string-padded :
    (n k : ℕ) (xs : List ℕ) → c_string (take n (xs ++ replicate k 0)) ≡ c_string (take n xs)
unfolding c_string
c_string-padded zero k xs = refl
c_string-padded (suc n) zero [] = refl
c_string-padded (suc n) (suc k) [] = refl
c_string-padded (suc n) k (x ∷ xs) = ground (arith, c_string-padded n k xs)
