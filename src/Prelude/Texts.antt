-- ===== src/Prelude/Texts.antt =====
-- Texts that are not empty.
use Prim.Native.String.{String, ◌++◌ as ◌<>◌}
use mathlib.Core.Path.{◌≡◌}
use mathlib.Core.Logic.{inl, inr}
use mathlib.Core.Bool.{false, false≢true}
use text.Mathlib.TextEquality.{eq_iff}
use text.Mathlib.TextLemmas.{append-eq-nil_iff}
use solprobe.Prelude.Tests.{Bool-cases}
use solprobe.Prelude.Keys.{◌==◌, string_eq}

pub append-nonempty : (s t : String) → s == "" ≡ false → (s <> t) == "" ≡ false
append-nonempty s t h = elim (Bool-cases ((s <> t) == "")) [
  | inl empty ↦
      let nothing = append-eq-nil_iff.0 ((eq_iff (s <> t) "").0 empty) in absurd (false≢true (cc))
  | inr full ↦ full
]
