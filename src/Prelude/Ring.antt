-- ===== src/Prelude/Ring.antt =====
-- Python's `deque(maxlen=m)`, oldest entry first: `append` drops from the left what does not fit.
use Prim.Native.Nat.{ℕ, zero, suc, ◌+◌, ◌-◌, ◌≤◌, ◌<◌}
use mathlib.Core.Path.{◌≡◌, sym, ap, ◌∙◌}
use mathlib.Core.List.{List, [], ◌∷◌, ◌++◌, foldl, append_assoc, append-nil}
use mathlib.Core.Option.{some}
use native.Mathlib.Omega.{arith}
use solprobe.Prelude.Lists.{
  length, drop, length-drop, length-append, drop-append, drop-drop, drop-nil, All, All-drop,
  All-append, last?, last?-append,
}

module _ {ℓ} {A : Type ℓ} where
  -- The newest `m` entries.
  unfoldable pub take_last : ℕ → List A → List A
  take_last m xs = drop (length xs - m) xs

  -- `xs[-n:]`: since `-0` is `0`, the slice at `n = 0` is the whole list.
  unfoldable pub slice_last : ℕ → List A → List A
  unfolding take_last
  slice_last zero xs = xs
  slice_last (suc n) xs = take_last (suc n) xs

  -- dq.append(x)
  unfoldable pub push : ℕ → List A → A → List A
  unfolding take_last
  push m xs x = take_last m (xs ++ x ∷ [])

  pub length-take_last-le : (m : ℕ) (xs : List A) → length (take_last m xs) ≤ m
  unfolding take_last
  length-take_last-le m xs = omega (arith, length-drop (length xs - m) xs)

  pub length-push-le : (m : ℕ) (xs : List A) (x : A) → length (push m xs x) ≤ m
  unfolding push
  length-push-le m xs x = length-take_last-le m (xs ++ x ∷ [])

  -- What a full ring forgot does not show in what it keeps.
  pub push-take_last :
      (m : ℕ) (h : List A) (x : A) → push m (take_last m h) x ≡ take_last m (h ++ x ∷ [])
  unfolding push take_last
  push-take_last m h x =
      let n : ℕ = length h - m in
      let k : ℕ = length (drop n h ++ x ∷ []) - m in
      let sum : n + k ≡ length (h ++ x ∷ []) - m =
        omega
          (arith, length-append (drop n h) (x ∷ []), length-append h (x ∷ []), length-drop n h) in
      ap (drop k) (sym (drop-append n h (x ∷ []) (omega arith)))
      ∙ drop-drop k n (h ++ x ∷ [])
      ∙ ap (λ j. drop j (h ++ x ∷ [])) sum

  -- A ring that is filled entry by entry holds the newest `m` of all that were ever appended.
  pub foldl-push :
      (m : ℕ) (h xs : List A) → foldl (push m) (take_last m h) xs ≡ take_last m (h ++ xs)
  foldl-push m h [] = ap (take_last m) (sym (append-nil h))
  foldl-push m h (x ∷ xs) =
      ap (λ r. foldl (push m) r xs) (push-take_last m h x)
      ∙ foldl-push m (h ++ x ∷ []) xs
      ∙ ap (take_last m) (append_assoc h (x ∷ []) xs)

  -- The same from an empty ring.
  pub foldl-push_empty : (m : ℕ) (xs : List A) → foldl (push m) [] xs ≡ take_last m xs
  unfolding take_last
  foldl-push_empty m xs =
      ap (λ r. foldl (push m) r xs) (sym (drop-nil (0 - m))) ∙ foldl-push m [] xs

  pub last?-push : (m : ℕ) (xs : List A) (x : A) → 0 < m → last? (push m xs x) ≡ some x
  unfolding push take_last
  last?-push m xs x h =
      let n : ℕ = length (xs ++ x ∷ []) - m in
      let fits : n ≤ length xs = omega (arith, length-append xs (x ∷ [])) in
      ap last? (drop-append n xs (x ∷ []) fits) ∙ last?-append (drop n xs) x

  pub All-push {κ} :
      (P : A → Type κ) (m : ℕ) (xs : List A) (x : A) → All P xs → P x → All P (push m xs x)
  unfolding push take_last
  All-push P m xs x h p =
      All-drop P (length (xs ++ x ∷ []) - m) (xs ++ x ∷ []) (All-append P xs (x ∷ []) h (p, tt))

  pub All-slice_last {κ} :
      (P : A → Type κ) (n : ℕ) (xs : List A) → All P xs → All P (slice_last n xs)
  unfolding slice_last
  All-slice_last P zero xs h = h
  All-slice_last P (suc n) xs h = All-drop P (length xs - suc n) xs h
