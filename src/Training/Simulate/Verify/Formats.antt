-- ===== src/Training/Simulate/Verify/Formats.antt =====
-- `struct.unpack` undoes `struct.pack`.
use solprobe.Prelude.{
  ℕ, suc, ◌-◌, ◌≡◌, refl, ap, sym, ◌∙◌, arith, true, some, List, [], ◌∷◌, ◌++◌, map, ltb→lt,
  false≢true, ◌>>=◌, nat_eq, inl, inr,
}
use solprobe.Prelude.Int.{pos, negsuc}
use solprobe.Prelude.Floats.{Floats}
use solprobe.Prelude.Result.{ok}
use solprobe.Training.Struct.{
  Machine, Item, pack, uint8, int64, uint64, float32, two_63, two_64, le_bytes,
}
use solprobe.Training.Struct.Fits.{pack-Packs, fits, fits_all, stored, bytes_of, bytes_of_all}
use solprobe.Training.Callback.Delivered.{and_true}
use solprobe.Training.Simulate.Verify.{
  Code, byte, signed_word, word, single, unpack, train_example, diloco_example,
  verify_binary_format,
}
use solprobe.Sidecar.{from_le, signed64}
use solprobe.Sidecar.Layout.{from_le-le_bytes}

module _ {F : Type 0} where
  -- The format of some values.
  abbrev pub code_of : Item F → Code
  code_of (uint8 n) = byte
  code_of (int64 n) = signed_word
  code_of (uint64 n) = word
  code_of (float32 x) = single

module _ {F : Type 0} (m : Machine F) where
  -- A value after it was packed: a number is rounded to four bytes.
  abbrev pub rounded : Item F → Item F
  rounded (float32 x) = float32 (stored m x)
  rounded i = i

  unpack-cons :
      (i : Item F) (fmt : List Code) (bs : List ℕ)
      → fits m i ≡ true
      → unpack m (code_of i ∷ fmt) (bytes_of m i ++ bs)
        ≡ (unpack m fmt bs >>= λ rest. some (rounded i ∷ rest))
  unfolding unpack
  unpack-cons (uint8 n) fmt bs h = refl
  unpack-cons (int64 (pos n)) fmt bs h =
      let word_lem : from_le (le_bytes 8 n) ≡ n =
        from_le-le_bytes 8 n (omega (arith, ltb→lt n two_63 h)) in
      rw (word_lem, h) refl
  unpack-cons (int64 (negsuc n)) fmt bs h =
      let low = ltb→lt n two_63 h in
      let word_lem : from_le (le_bytes 8 (two_64 - suc n)) ≡ two_64 - suc n =
        from_le-le_bytes 8 (two_64 - suc n) (omega arith) in
      let high : signed64 (two_64 - suc n) ≡ negsuc n = ground arith in
      rw word_lem (ap (λ z. unpack m fmt bs >>= λ rest. some (int64 z ∷ rest)) high)
  unpack-cons (uint64 (pos n)) fmt bs h =
      let word_lem : from_le (le_bytes 8 n) ≡ n = from_le-le_bytes 8 n (ltb→lt n two_64 h) in
      rw word_lem refl
  unpack-cons (uint64 (negsuc n)) fmt bs h = absurd (false≢true h)
  unpack-cons (float32 x) fmt bs h = refl

  unpack-bytes :
      (items : List (Item F))
      → fits_all m items ≡ true
      → unpack m (map code_of items) (bytes_of_all m items) ≡ some (map rounded items)
  unfolding unpack
  unpack-bytes [] h = refl
  unpack-bytes (i ∷ items) h =
      unpack-cons i (map code_of items) (bytes_of_all m items) (and_true h).0
      ∙ ap (λ r. r >>= λ rest. some (rounded i ∷ rest))
          (unpack-bytes items (and_true {a = fits m i} h).1)

  -- Values that are in the ranges of their format are packed, and what was packed is unpacked to the
  -- same values, but that each floating point number is rounded to four bytes.
  pub unpack-pack :
      (items : List (Item F))
      → fits_all m items ≡ true
      → (bs : List ℕ) × (pack m items ≡ ok bs)
        × (unpack m (map code_of items) bs ≡ some (map rounded items))
  unpack-pack items h = elim (pack-Packs m items) [
    | inl (no_fit, e, raised) ↦ absurd (false≢true (sym no_fit ∙ h))
    | inr (fit, packed) ↦ (bytes_of_all m items, packed, unpack-bytes items h)
  ]

module _ (fl : Floats) (m : Machine fl.F) where
  open fl use {lt, abs, sub, literal}

  -- The check of the formats succeeds where its sample values fit and 2.5 stays near itself.
  verify_binary_format-passes :
      fits_all m (train_example fl m) ≡ true
      → fits_all m (diloco_example fl m) ≡ true
      → lt (abs (sub (stored m (literal (pos 25) 1)) (literal (pos 25) 1))) (literal (pos 1) 5)
        ≡ true
      → verify_binary_format fl m ≡ true
  unfolding verify_binary_format
  verify_binary_format-passes train diloco near =
      let (bs, packed, back) = unpack-pack m (train_example fl m) train in
      let (bs', packed', back') = unpack-pack m (diloco_example fl m) diloco in
      rw (packed, back, packed', back', near) refl
