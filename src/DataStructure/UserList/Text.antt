-- ===== src/DataStructure/UserList/Text.antt =====
-- Text as its bytes, without the terminating NUL, and what `strcmp` and `scnprintf` do to it.
use Prim.Native.Char.{code}
use Prim.Native.Nat.{◌/◌}
use linux_kernel_samples.Base.{
  ℕ, zero, suc, ◌+◌, ◌%◌, ◌-◌, ◌≤◌, ◌≡◌, refl, ap, Bool, true, false, ◌&&◌, String, List, [], ◌∷◌,
  arith, ltb, ◌==◌, if◌then◌else◌,
}

abbrev pub Text : Type 0
Text = List ℕ

-- The bytes of an ASCII literal.
abbrev pub codes : String → Text
codes String.[] = []
codes (String.◌∷◌ c s) = code c ∷ codes s

abbrev pub length : {A : Type 0} → List A → ℕ
length [] = 0
length (x ∷ xs) = suc (length xs)

abbrev pub take : {A : Type 0} → ℕ → List A → List A
take zero xs = []
take (suc n) [] = []
take (suc n) (x ∷ xs) = x ∷ take n xs

pub take-all : (n : ℕ) (a : Text) → length a ≤ n → take n a ≡ a
take-all zero [] h = refl
take-all zero (x ∷ a) h = absurd (omega arith)
take-all (suc n) [] h = refl
take-all (suc n) (x ∷ a) h = ap (λ t. x ∷ t) (take-all n a (omega arith))

-- `!strcmp(a, b)`
unfoldable pub same_text : Text → Text → Bool
same_text [] [] = true
same_text [] (y ∷ ys) = false
same_text (x ∷ xs) [] = false
same_text (x ∷ xs) (y ∷ ys) = (x == y) && same_text xs ys

pub same_text→eq : (a b : Text) → same_text a b ≡ true → a ≡ b
unfolding same_text
same_text→eq [] [] h = refl
same_text→eq [] (y ∷ ys) h = ground arith
same_text→eq (x ∷ xs) [] h = ground arith
same_text→eq (x ∷ xs) (y ∷ ys) h = ground (arith, same_text→eq xs ys)

pub same_text_refl : (a : Text) → same_text a a ≡ true
unfolding same_text
same_text_refl [] = refl
same_text_refl (x ∷ xs) = ground (arith, same_text_refl xs)

-- `%u` of a 32-bit number, whose decimal form has ten digits at most.
unfoldable pub digits_of : ℕ → ℕ → Text → Text
digits_of zero n rest = rest
digits_of (suc fuel) n rest =
    let more = digits_of fuel (n / 10) ((48 + n % 10) ∷ rest) in
    if ltb n 10 then (48 + n) ∷ rest else more

unfoldable pub decimal : ℕ → Text
unfolding digits_of
decimal n = digits_of 10 n []

-- `scnprintf(buf, size, …)`: the text is cut to leave room for the NUL; the result is what was
-- written.
abbrev pub scnprintf : ℕ → Text → Text
scnprintf size text = take (size - 1) text
