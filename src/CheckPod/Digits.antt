-- ===== src/CheckPod/Digits.antt =====
-- checkpod.go: the numbers in the names of check pods, written by `%d`.
use incident_controller.Prelude.{
  ℕ, zero, suc, ◌+◌, ◌-◌, ◌*◌, ◌/◌, ◌%◌, ◌≤◌, ◌<◌, ◌≡◌, Text, [], ◌∷◌, arith, All,
}
use incident_controller.CheckPod.Names.{digits_to, decimal}

-- The number that digits stand for, behind those read already.
pub read_digits : ℕ → Text → ℕ
read_digits n [] = n
read_digits n (c ∷ s) = read_digits (n * 10 + (c - 0x30)) s

digits_to-read :
    (fuel n : ℕ) (acc : Text) → n < fuel → read_digits 0 (digits_to fuel n acc) ≡ read_digits n acc
unfolding digits_to read_digits
digits_to-read zero n acc h = absurd (omega arith)
digits_to-read (suc fuel) n acc h =
    ground (arith, digits_to-read fuel (n / 10) ((n % 10 + 0x30) ∷ acc))

-- More rounds than the number's value give no other digits.
digits_to-fuel :
    (fuel more n : ℕ) (acc : Text)
    → n < fuel
    → n < more
    → digits_to fuel n acc ≡ digits_to more n acc
unfolding digits_to
digits_to-fuel zero more n acc h k = absurd (omega arith)
digits_to-fuel (suc fuel) zero n acc h k = absurd (omega arith)
digits_to-fuel (suc fuel) (suc more) n acc h k =
    ground (arith, digits_to-fuel fuel more (n / 10) ((n % 10 + 0x30) ∷ acc))

-- The rounds that `decimal` takes are enough: any more write the same digits.
pub decimal-fuel : (n more : ℕ) → n < more → digits_to more n [] ≡ decimal n
unfolding decimal
decimal-fuel n more h = digits_to-fuel more (suc n) n [] h (omega arith)

-- What `decimal` writes reads back as the number.
pub decimal-read : (n : ℕ) → read_digits 0 (decimal n) ≡ n
unfolding decimal read_digits
decimal-read n = digits_to-read (suc n) n [] (omega arith)

abbrev pub IsDigit : ℕ → Type 0
IsDigit c = (0x30 ≤ c) × (c ≤ 0x39)

digits_to-All : (fuel n : ℕ) (acc : Text) → All IsDigit acc → All IsDigit (digits_to fuel n acc)
unfolding digits_to
digits_to-All zero n acc a = a
digits_to-All (suc fuel) n acc a =
    ground (arith, digits_to-All fuel (n / 10) ((n % 10 + 0x30) ∷ acc))

pub decimal-All : (n : ℕ) → All IsDigit (decimal n)
unfolding decimal
decimal-All n = digits_to-All (suc n) n [] tt
