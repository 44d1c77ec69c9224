-- ===== src/Prelude/Strings.antt =====
-- A C string as the list of its bytes before the terminator.
use Prim.Native.Nat.{ℕ}
use Prim.Native.Char.{code}
use Prim.Native.String.{String}
use mathlib.Core.Path.{◌≡◌, refl}
use mathlib.Core.Bool.{Bool, true, false, ◌&&◌}
use mathlib.Core.List.{List, [], ◌∷◌}
use native.Mathlib.Omega.{arith}
use engram_core.Prelude.Tests.{◌==◌}

abbrev pub Text : Type 0
Text = List ℕ

-- The bytes of a literal.
abbrev pub codes : String → Text
codes String.[] = []
codes (String.◌∷◌ c s) = code c ∷ codes s

-- `strcmp(a, b) == 0`.
unfoldable pub same_text : Text → Text → Bool
same_text [] [] = true
same_text (a ∷ v) (b ∷ w) = (a == b) && same_text v w
same_text _ _ = false

pub same_text_sym : (a b : Text) → same_text a b ≡ same_text b a
unfolding same_text
same_text_sym [] [] = refl
same_text_sym [] (b ∷ bs) = refl
same_text_sym (a ∷ v) [] = refl
same_text_sym (a ∷ v) (b ∷ w) = rw (same_text_sym v w) (ground arith)

pub same_text_self : (a : Text) → same_text a a ≡ true
unfolding same_text
same_text_self [] = refl
same_text_self (a ∷ v) = rw (same_text_self v) (ground arith)

pub same_text_trans :
    (a b c : Text) → same_text a b ≡ true → same_text b c ≡ true → same_text a c ≡ true
unfolding same_text
same_text_trans [] [] [] p q = refl
same_text_trans [] [] (c ∷ z) p q = cc
same_text_trans [] (b ∷ w) c p q = cc
same_text_trans (a ∷ v) [] c p q = cc
same_text_trans (a ∷ v) (b ∷ w) [] p q = ground arith
same_text_trans (a ∷ v) (b ∷ w) (c ∷ z) p q =
    let rest = same_text_trans v w z (ground arith) (ground arith) in rw rest (ground arith)
