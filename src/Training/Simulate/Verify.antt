-- ===== src/Training/Simulate/Verify.antt =====
-- `_verify_binary_format` of training/simulate.py, with `struct.unpack`.
pub mod Formats
use solprobe.Prelude.{
  ℕ, zero, suc, ◌+◌, Bool, true, false, ◌&&◌, Option, none, some, List, [], ◌∷◌, take, drop, length,
  ◌==◌, nat_eq, if◌then◌else◌, ◌>>=◌,
}
use solprobe.Prelude.Int.{ℤ, pos, negsuc}
use solprobe.Prelude.Floats.{Floats}
use solprobe.Prelude.Result.{Result, ok, err}
use solprobe.Training.Struct.{Machine, Item, uint8, int64, uint64, float32, pack}
use solprobe.Sidecar.{from_le, signed64}

-- The characters B, q, Q and f of a format.
pub data Code : Type 0 where
  byte signed_word word single : Code

abbrev pub size : Code → ℕ
size byte = 1
size signed_word = 8
size word = 8
size single = 4

-- _TRAIN_FMT and _DILOCO_FMT
abbrev pub train_fmt : List Code
train_fmt = byte ∷ signed_word ∷ word ∷ single ∷ single ∷ single ∷ single ∷ single ∷ []

abbrev pub diloco_fmt : List Code
diloco_fmt =
    byte ∷ signed_word ∷ word ∷ word ∷ single ∷ single ∷ single ∷ single ∷ single ∷ byte ∷ []

-- struct.calcsize
unfoldable pub calcsize : List Code → ℕ
calcsize [] = 0
calcsize (c ∷ fmt) = size c + calcsize fmt

module _ {F : Type 0} (m : Machine F) where
  unfoldable pub unpack_item : Code → List ℕ → Option (Item F)
  unpack_item byte (n ∷ []) = some (uint8 n)
  unpack_item byte bs = none
  unpack_item signed_word bs = if length bs == 8 then some (int64 (signed64 (from_le bs))) else none
  unpack_item word bs = if length bs == 8 then some (uint64 (pos (from_le bs))) else none
  unpack_item single (a ∷ b ∷ c ∷ d ∷ []) = some (float32 (m.unpack_f32 a b c d))
  unpack_item single bs = none

  -- struct.unpack(format, data); `none` is the exception for data of another size.
  unfoldable pub unpack : List Code → List ℕ → Option (List (Item F))
  unfolding unpack_item
  unpack [] [] = some []
  unpack [] (b ∷ bs) = none
  unpack (c ∷ fmt) bs = do
    item ← unpack_item c (take (size c) bs)
    rest ← unpack fmt (drop (size c) bs)
    some (item ∷ rest)

module _ (fl : Floats) (m : Machine fl.F) where
  open fl use {F, lt, sub, abs, literal}

  -- Whether an integer field has a value.
  abbrev is_int : Item F → ℕ → Bool
  is_int (uint8 n) k = n == k
  is_int (int64 (pos n)) k = n == k
  is_int (uint64 (pos n)) k = n == k
  is_int _ k = false

  -- abs(x - y) < 1e-5
  abbrev is_near : Item F → F → Bool
  is_near (float32 x) y = lt (abs (sub x y)) (literal (pos 1) 5)
  is_near _ y = false

  abbrev train_checks : Option (List (Item F)) → Bool
  train_checks (some (flag ∷ time ∷ step ∷ loss ∷ rest)) =
      is_int flag 1
      && (is_int time 1234567890000 && (is_int step 42 && is_near loss (literal (pos 25) 1)))
  train_checks _ = false

  abbrev diloco_checks : Option (List (Item F)) → Bool
  diloco_checks (some (flag ∷ time ∷ inner ∷ outer ∷ a ∷ b ∷ c ∷ d ∷ e ∷ straggler ∷ [])) =
      is_int flag 1 && (is_int inner 5 && (is_int outer 1 && is_int straggler 0))
  diloco_checks _ = false

  abbrev pub train_example : List (Item F)
  train_example =
      uint8 1
      ∷ int64 (pos 1234567890000)
      ∷ uint64 (pos 42)
      ∷ float32 (literal (pos 25) 1)
      ∷ float32 (literal (pos 10) 1)
      ∷ float32 (literal (pos 3) 4)
      ∷ float32 (literal (pos 50000) 1)
      ∷ float32 (literal (pos 333) 1)
      ∷ []

  abbrev pub diloco_example : List (Item F)
  diloco_example =
      uint8 1
      ∷ int64 (pos 1234567890000)
      ∷ uint64 (pos 5)
      ∷ uint64 (pos 1)
      ∷ float32 (literal (pos 21) 1)
      ∷ float32 (literal (pos 18) 1)
      ∷ float32 (literal (pos 45) 2)
      ∷ float32 (literal (pos 3200) 1)
      ∷ float32 (literal (pos 98) 2)
      ∷ uint8 0
      ∷ []

  abbrev unpacked : List Code → Result (List ℕ) → Option (List (Item F))
  unpacked fmt (ok bs) = unpack m fmt bs
  unpacked fmt (err e) = none

  -- Whether all assertions hold.
  unfoldable pub verify_binary_format : Bool
  unfolding calcsize
  verify_binary_format =
      calcsize train_fmt == 37
      && (train_checks (unpacked train_fmt (pack m train_example))
          && (calcsize diloco_fmt == 46
              && diloco_checks (unpacked diloco_fmt (pack m diloco_example))))
