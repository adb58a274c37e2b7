-- ===== src/Training/Struct.antt =====
-- The records of training/callback.py, training/diloco_callback.py and training/simulate.py:
-- `struct.pack` with a little-endian format, padding, and writes to a mapped file.
pub mod Fits
use solprobe.Prelude.{
  ℕ, zero, suc, ◌+◌, ◌-◌, ◌*◌, ◌/◌, ◌%◌, Bool, Option, none, some, List, [], ◌∷◌, ◌++◌, length,
  drop, ltb, leb, if◌then◌else◌,
}
use solprobe.Prelude.Int.{ℤ, pos, negsuc}
use solprobe.Prelude.Result.{Result, ok, err, ◌>>=◌, struct_error, overflow_error, value_error}

-- 2 ** 64
abbrev pub two_64 : ℕ
two_64 = 18446744073709551616

-- 2 ** 63
abbrev pub two_63 : ℕ
two_63 = 9223372036854775808

-- the low n bytes of a number, the lowest first
abbrev pub le_bytes : ℕ → ℕ → List ℕ
le_bytes zero x = []
le_bytes (suc n) x = x % 256 ∷ le_bytes n (x / 256)

-- What the program uses of floating point numbers beyond `Floats`.
pub record Machine (F : Type 0) : Type 0 where
  -- x ** y, which raises OverflowError where the result is too large
  pub power : F → F → Option F
  -- math.exp
  pub exp : F → F
  -- the four bytes of struct.pack("<f", x), which raises OverflowError where x is finite and too large
  pub pack_f32 : F → Option (ℕ × ℕ × ℕ × ℕ)
  -- f32::from_le_bytes
  pub unpack_f32 : ℕ → ℕ → ℕ → ℕ → F

-- The values of the formats B, q, Q and f.
pub data Item (F : Type 0) : Type 0 where
  uint8 : ℕ → Item F
  int64 : ℤ → Item F
  uint64 : ℤ → Item F
  float32 : F → Item F

abbrev pub of_quad : Option (ℕ × ℕ × ℕ × ℕ) → Result (List ℕ)
of_quad none = err overflow_error
of_quad (some (a, b, c, d)) = ok (a ∷ b ∷ c ∷ d ∷ [])

module _ {F : Type 0} (m : Machine F) where
  unfoldable pub pack_item : Item F → Result (List ℕ)
  pack_item (uint8 n) = if ltb n 256 then ok (n ∷ []) else err struct_error
  pack_item (int64 (pos n)) = if ltb n two_63 then ok (le_bytes 8 n) else err struct_error
  pack_item (int64 (negsuc n)) =
      if ltb n two_63 then ok (le_bytes 8 (two_64 - suc n)) else err struct_error
  pack_item (uint64 (pos n)) = if ltb n two_64 then ok (le_bytes 8 n) else err struct_error
  pack_item (uint64 (negsuc n)) = err struct_error
  pack_item (float32 x) = of_quad (m.pack_f32 x)

  -- struct.pack(format, ...)
  unfoldable pub pack : List (Item F) → Result (List ℕ)
  unfolding pack_item
  pack [] = ok []
  pack (i ∷ items) = do bs ← pack_item i; rest ← pack items; ok (bs ++ rest)

-- b"\x00" * n
abbrev pub zeros : ℕ → List ℕ
zeros zero = []
zeros (suc n) = 0 ∷ zeros n

abbrev pub file_size : ℕ
file_size = 64

-- mm.seek(0); mm.write(bs)
unfoldable pub write_start : List ℕ → List ℕ → Result (List ℕ)
write_start file bs =
    if leb (length bs) (length file) then ok (bs ++ drop (length bs) file) else err value_error

-- The payload with its padding, at the start of the file.
unfoldable pub write_record : {F : Type 0} → Machine F → List ℕ → List (Item F) → Result (List ℕ)
unfolding pack write_start
write_record m file items = do
  payload ← pack m items
  write_start file (payload ++ zeros (file_size - length payload))

-- The file as `__init__` leaves it.
abbrev pub fresh_file : List ℕ
fresh_file = zeros file_size
