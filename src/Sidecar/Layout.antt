-- ===== src/Sidecar/Layout.antt =====
-- The bytes that `struct.pack` writes and the sidecar's readers take apart.
use solprobe.Prelude.{
  ℕ, zero, suc, ◌*◌, ◌/◌, ◌<◌, ◌≡◌, refl, arith, List, ◌∷◌, length, Option, none, Bool-cases, ltb,
  inl, inr,
}
use solprobe.Training.Struct.{le_bytes}
use solprobe.Sidecar.{from_le, checked}

-- 256 ** n
abbrev pub power_256 : ℕ → ℕ
power_256 zero = 1
power_256 (suc n) = 256 * power_256 n

pub from_le-le_bytes : (n x : ℕ) → x < power_256 n → from_le (le_bytes n x) ≡ x
from_le-le_bytes zero x h = omega arith
from_le-le_bytes (suc n) x h =
    let rest = from_le-le_bytes n (x / 256) (omega arith) in omega (arith, rest)

-- A file that is marked as invalid is not read.
pub checked-invalid :
    {R : Type 0} (size now : ℕ) (fields : List ℕ → Option R) (bs : List ℕ)
    → checked size now fields (0 ∷ bs) ≡ none
unfolding checked
checked-invalid size now fields bs = elim (Bool-cases (ltb (suc (length bs)) size)) [
  | inl t ↦ rw t refl
  | inr f ↦ rw f refl
]
