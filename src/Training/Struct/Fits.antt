-- ===== src/Training/Struct/Fits.antt =====
-- When `struct.pack` succeeds, and with what bytes.
use solprobe.Prelude.{
  ℕ, suc, ◌-◌, ◌≡◌, refl, ap, arith, Bool, true, false, ◌&&◌, Option, none, some, List, [], ◌∷◌,
  ◌++◌, length, drop, drop-eq-nil, length-append, length-drop, leb→le, append-nil, ltb, leb,
  if◌then◌else◌, is_some, Option-cases, Bool-cases, ◌⊎◌, inl, inr,
}
use solprobe.Prelude.Int.{pos, negsuc}
use solprobe.Prelude.Result.{Result, Error, ok, err, OnOk, OnOk->>=}
use solprobe.Training.Struct.{
  Machine, Item, uint8, int64, uint64, float32, pack_item, pack, write_start, write_record, zeros,
  file_size, le_bytes, two_63, two_64,
}

abbrev or_zeros : Option (ℕ × ℕ × ℕ × ℕ) → ℕ × ℕ × ℕ × ℕ
or_zeros none = (0, 0, 0, 0)
or_zeros (some q) = q

-- A write leaves the length of the file.
pub write_start-length :
    (file bs : List ℕ) → OnOk (λ f. length f ≡ length file) (write_start file bs)
unfolding write_start
write_start-length file bs = elim (Bool-cases (leb (length bs) (length file))) [
  | inr f ↦ rw f tt
  | inl t ↦
      let size = length-append bs (drop (length bs) file) in
      let rest = length-drop (length bs) file in
      let small = leb→le (length bs) (length file) t in rw t (omega (arith, size, rest, small))
]

-- Writing the flag alone.
pub write_start-flag :
    (file : List ℕ) → length file ≡ file_size → write_start file (0 ∷ []) ≡ ok (0 ∷ drop 1 file)
unfolding write_start
write_start-flag file h = rw h refl

module _ {F : Type 0} (m : Machine F) where
  -- Whether a value is in the range of its format.
  abbrev pub fits : Item F → Bool
  fits (uint8 n) = ltb n 256
  fits (int64 (pos n)) = ltb n two_63
  fits (int64 (negsuc n)) = ltb n two_63
  fits (uint64 (pos n)) = ltb n two_64
  fits (uint64 (negsuc n)) = false
  fits (float32 x) = is_some (m.pack_f32 x)

  abbrev pub fits_all : List (Item F) → Bool
  fits_all [] = true
  fits_all (i ∷ items) = fits i && fits_all items

  -- The four bytes of a number that fits.
  abbrev pub quad : F → ℕ × ℕ × ℕ × ℕ
  quad x = or_zeros (m.pack_f32 x)

  -- What the sidecar reads of a number that was packed.
  abbrev pub stored : F → F
  stored x = m.unpack_f32 (quad x).0 (quad x).1 (quad x).2 (quad x).3

  abbrev pub bytes_of : Item F → List ℕ
  bytes_of (uint8 n) = n ∷ []
  bytes_of (int64 (pos n)) = le_bytes 8 n
  bytes_of (int64 (negsuc n)) = le_bytes 8 (two_64 - suc n)
  bytes_of (uint64 (pos n)) = le_bytes 8 n
  bytes_of (uint64 (negsuc n)) = []
  bytes_of (float32 x) = (quad x).0 ∷ (quad x).1 ∷ (quad x).2 ∷ (quad x).3 ∷ []

  abbrev pub bytes_of_all : List (Item F) → List ℕ
  bytes_of_all [] = []
  bytes_of_all (i ∷ items) = bytes_of i ++ bytes_of_all items

  -- An exception if a value does not fit, or the result.
  abbrev pub Packs : {A : Type 0} → Bool → Result A → A → Type 0
  Packs fit r a = ((fit ≡ false) × (e : Error) × (r ≡ err e)) ⊎ ((fit ≡ true) × (r ≡ ok a))

  Packs-if :
      {A : Type 0} (fit : Bool) (a : A) (e : Error) → Packs fit (if fit then ok a else err e) a
  Packs-if true a e = inr (refl, refl)
  Packs-if false a e = inl (refl, e, refl)

  pack_item-Packs : (i : Item F) → Packs (fits i) (pack_item m i) (bytes_of i)
  unfolding pack_item
  pack_item-Packs (uint8 n) = Packs-if (ltb n 256) _ _
  pack_item-Packs (int64 (pos n)) = Packs-if (ltb n two_63) _ _
  pack_item-Packs (int64 (negsuc n)) = Packs-if (ltb n two_63) _ _
  pack_item-Packs (uint64 (pos n)) = Packs-if (ltb n two_64) _ _
  pack_item-Packs (uint64 (negsuc n)) = inl (refl, _, refl)
  pack_item-Packs (float32 x) = elim (Option-cases (m.pack_f32 x)) [
    | inl e ↦ rw e (inl (refl, _, refl))
    | inr (q, e) ↦ rw e (inr (refl, refl))
  ]

  pub pack-Packs :
      (items : List (Item F)) → Packs (fits_all items) (pack m items) (bytes_of_all items)
  unfolding pack
  pack-Packs [] = inr (refl, refl)
  pack-Packs (i ∷ items) = elim (pack_item-Packs i) [
    | inl (no_fit, e, raised) ↦ rw (no_fit, raised) (inl (refl, e, refl))
    | inr (fit, packed) ↦ elim (pack-Packs items) [
      | inl (no_fit, e, raised) ↦ rw (fit, packed, no_fit, raised) (inl (refl, e, refl))
      | inr (rest_fit, rest) ↦ rw (fit, packed, rest_fit, rest) (inr (refl, refl))
    ]
  ]

  -- The file after a record was written.
  abbrev pub record_bytes : List (Item F) → List ℕ
  record_bytes items = bytes_of_all items ++ zeros (file_size - length (bytes_of_all items))

  write_start-full : (file bs : List ℕ) → length file ≡ length bs → write_start file bs ≡ ok bs
  unfolding write_start
  write_start-full file bs h = elim (Bool-cases (leb (length bs) (length file))) [
    | inl t ↦ rw (t, drop-eq-nil (length bs) file (omega arith)) (ap ok (append-nil bs))
    | inr f ↦ absurd (ground arith)
  ]

  -- A record that fills the file replaces it.
  pub write_record-Packs :
      (file : List ℕ) (items : List (Item F))
      → length file ≡ length (record_bytes items)
      → Packs (fits_all items) (write_record m file items) (record_bytes items)
  unfolding write_record
  write_record-Packs file items h = elim (pack-Packs items) [
    | inl (no_fit, e, raised) ↦ inl (no_fit, e, rw raised refl)
    | inr (fit, packed) ↦ inr (fit, rw packed (write_start-full file (record_bytes items) h))
  ]

  pub write_record-length :
      (file : List ℕ) (items : List (Item F))
      → OnOk (λ f. length f ≡ length file) (write_record m file items)
  unfolding write_record
  write_record-length file items =
      OnOk->>= (λ f. length f ≡ length file) (pack m items) _ (λ payload. write_start-length file _)

  pub fits-within :
      (before after : List (Item F)) (i : Item F)
      → fits_all (before ++ i ∷ after) ≡ true
      → fits i ≡ true
  fits-within [] after i h = ground arith
  fits-within (b ∷ before) after i h =
      let rest : fits_all (before ++ i ∷ after) ≡ true = ground arith in
      fits-within before after i rest
