-- ===== src/Prelude/Dict/Order.antt =====
-- The keys of a dictionary: their distinctness and order.
use solprobe.Prelude.Tests.{if◌then◌else◌, Bool-cases}
use solprobe.Prelude.Keys.{Comparable, ◌==◌, contains}
use solprobe.Prelude.Lists.{length}
use solprobe.Prelude.Dict.{Dict, keys, get, put, remove}
use Prim.Native.Nat.{◌≤◌, ◌<◌, ◌+◌}
use mathlib.Core.Path.{◌≡◌, refl, sym, ap, subst, subst₂}
use mathlib.Core.Logic.{inl, inr}
use mathlib.Core.Bool.{true, false}
use mathlib.Core.Option.{none, some}
use mathlib.Core.List.{List, [], ◌∷◌, ◌++◌}
use native.Mathlib.Omega.{arith}

module _ {ℓ} {K : Type ℓ} ⦃e : Comparable K⦄ where
  -- No key stands twice.
  abbrev pub Distinct : List K → Type 0
  Distinct [] = Unit
  Distinct (k ∷ ks) = (contains ks k ≡ false) × Distinct ks

  pub contains-append_one :
      (ks : List K) (k j : K) → contains (ks ++ k ∷ []) j ≡ (if contains ks j then true else j == k)
  contains-append_one [] k j = ground arith
  contains-append_one (i ∷ ks) k j = ground (arith, contains-append_one ks k j)

  pub Distinct-append_one :
      (ks : List K) (k : K) → contains ks k ≡ false → Distinct ks → Distinct (ks ++ k ∷ [])
  Distinct-append_one [] k h d = (refl, tt)
  Distinct-append_one (j ∷ ks) k h (c, d) =
      ground (
        arith,
        contains-append_one ks k j,
        e.same_iff j k,
        e.same_iff k j,
        Distinct-append_one ks k,
      )

module _ {ℓ κ} {K : Type ℓ} {V : Type κ} ⦃e : Comparable K⦄ where
  -- A key is found exactly if it stands among the keys.
  pub get-contains : (k : K) (d : Dict K V) → get k d ≡ none → contains (keys d) k ≡ false
  unfolding get
  get-contains k [] h = refl
  get-contains k ((j, v) ∷ d) h = ground (arith, e.same_iff j k, e.same_iff k j, get-contains k d)

  pub get-eq-none : (k : K) (d : Dict K V) → contains (keys d) k ≡ false → get k d ≡ none
  unfolding get
  get-eq-none k [] h = refl
  get-eq-none k ((j, v) ∷ d) h = ground (arith, e.same_iff j k, e.same_iff k j, get-eq-none k d)

  pub keys-put :
      (k : K) (v : V) (d : Dict K V)
      → keys (put k v d) ≡ (if contains (keys d) k then keys d else keys d ++ k ∷ [])
  unfolding put
  keys-put k v [] = refl
  keys-put k v ((j, w) ∷ d) = ground (arith, e.same_iff j k, e.same_iff k j, keys-put k v d)

  keys-append : (c d : Dict K V) → keys (c ++ d) ≡ keys c ++ keys d
  keys-append [] d = refl
  keys-append ((i, w) ∷ c) d = ap (◌∷◌ i) (keys-append c d)

  pub Distinct-put :
      (k : K) (v : V) (d : Dict K V) → Distinct (keys d) → Distinct (keys (put k v d))
  Distinct-put k v d h = rw (keys-put k v d) (elim (Bool-cases (contains (keys d) k)) [
    | inl old ↦ rw old h
    | inr new ↦ rw new (Distinct-append_one (keys d) k new h)
  ])

  contains-remove :
      (k j : K) (d : Dict K V)
      → contains (keys (remove k d)) j ≡ (if k == j then false else contains (keys d) j)
  unfolding remove
  contains-remove k j [] = ground arith
  contains-remove k j ((i, w) ∷ d) =
      ground (arith, e.same_iff i k, e.same_iff j i, e.same_iff k j, contains-remove k j d)

  pub Distinct-remove : (k : K) (d : Dict K V) → Distinct (keys d) → Distinct (keys (remove k d))
  unfolding remove
  Distinct-remove k [] h = tt
  Distinct-remove k ((i, w) ∷ d) (c, h) =
      ground (arith, contains-remove k i d, Distinct-remove k d h)

  -- A key that is taken out and put last.
  pub Distinct-remove-append :
      (k : K) (v : V) (d : Dict K V)
      → Distinct (keys d)
      → Distinct (keys (remove k d ++ (k, v) ∷ []))
  Distinct-remove-append k v d h = rw (keys-append (remove k d) ((k, v) ∷ [])) (
      Distinct-append_one (keys (remove k d)) k
        (ground (arith, contains-remove k k d, e.same_iff k k)) (Distinct-remove k d h))

  pub length-put-le : (k : K) (v : V) (d : Dict K V) → length (put k v d) ≤ length d + 1
  unfolding put
  length-put-le k v [] = omega arith
  length-put-le k v ((j, w) ∷ d) = ground (arith, length-put-le k v d)

  pub length-put_of_some :
      (k : K) (v w : V) (d : Dict K V) → get k d ≡ some w → length (put k v d) ≡ length d
  unfolding get put
  length-put_of_some k v w [] h = cc
  length-put_of_some k v w ((j, u) ∷ d) h = ground (arith, length-put_of_some k v w d)

  length-remove-le : (k : K) (d : Dict K V) → length (remove k d) ≤ length d
  unfolding remove
  length-remove-le k [] = omega arith
  length-remove-le k ((j, w) ∷ d) = ground (arith, length-remove-le k d)

  pub length-remove-lt :
      (k : K) (w : V) (d : Dict K V) → get k d ≡ some w → length (remove k d) < length d
  unfolding get remove
  length-remove-lt k w [] h = cc
  length-remove-lt k w ((j, u) ∷ d) h = ground (arith, length-remove-le k d, length-remove-lt k w d)

-- A property of every item, which the operations keep.
module _ {ℓ κ} {K : Type ℓ} {V : Type κ} ⦃e : Comparable K⦄ (P : K → V → Type 0) where
  abbrev pub Items : Dict K V → Type 0
  Items [] = Unit
  Items ((k, v) ∷ d) = P k v × Items d

  pub Items-put : (k : K) (v : V) (d : Dict K V) → Items d → P k v → Items (put k v d)
  unfolding put
  Items-put k v [] h p = (p, tt)
  Items-put k v ((j, w) ∷ d) h p = elim (Bool-cases (j == k)) [
    | inl same ↦ rw same (subst (λ i. P i v) (sym ((e.same_iff j k).0 same)) p, h.1)
    | inr other ↦ rw other (h.0, Items-put k v d h.1 p)
  ]

  pub Items-remove : (k : K) (d : Dict K V) → Items d → Items (remove k d)
  unfolding remove
  Items-remove k [] h = tt
  Items-remove k ((j, w) ∷ d) h = elim (Bool-cases (j == k)) [
    | inl same ↦ rw same (Items-remove k d h.1)
    | inr other ↦ rw other (h.0, Items-remove k d h.1)
  ]

  pub Items-append : (c d : Dict K V) → Items c → Items d → Items (c ++ d)
  Items-append [] d h g = g
  Items-append ((j, w) ∷ c) d h g = (h.0, Items-append c d h.1 g)

  pub Items-get : (k : K) (v : V) (d : Dict K V) → Items d → get k d ≡ some v → P k v
  unfolding get
  Items-get k v [] h g = cc
  Items-get k v ((j, w) ∷ d) h g = elim (Bool-cases (j == k)) [
    | inl same ↦ subst₂ P ((e.same_iff j k).0 same) (ground arith) h.0
    | inr other ↦ Items-get k v d h.1 (ground arith)
  ]
