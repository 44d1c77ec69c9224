-- ===== src/Prelude/Float.antt =====
-- The `float` type of the source as a parameter: a carrier with the operations that the code calls.
use Prim.Native.Nat.{ℕ, zero, suc, ◌+◌, ◌-◌, ◌*◌, ◌/◌}
use mathlib.Core.Path.{◌≡◌, refl}
use mathlib.Core.Bool.{Bool, true, false, not}
use native.Mathlib.Omega.{arith}
use engram_core.Prelude.Tests.{if◌then◌else◌}
use engram_core.Prelude.Tests
use engram_core.Prelude.Int.{ℤ, pos, negsuc}

-- `lit n d` is the literal n / d. `ltb` is the operator `<` and `leb` is `<=`: both answer false on a NaN.
pub record Float : Type 1 where
  pub Carrier : Type 0
  pub ltb : Carrier → Carrier → Bool
  pub leb : Carrier → Carrier → Bool
  pub add : Carrier → Carrier → Carrier
  pub sub : Carrier → Carrier → Carrier
  pub mul : Carrier → Carrier → Carrier
  pub div : Carrier → Carrier → Carrier
  pub neg : Carrier → Carrier
  pub exp : Carrier → Carrier
  pub pow : Carrier → ℕ → Carrier
  pub lit : ℕ → ℕ → Carrier

-- `std::min(a, b)` is `(b < a) ? b : a`, and `std::max(a, b)` is `(a < b) ? b : a`.
module _ (F : Float) where
  abbrev pub fmin : F.Carrier → F.Carrier → F.Carrier
  fmin a b = if F.ltb b a then b else a

  abbrev pub fmax : F.Carrier → F.Carrier → F.Carrier
  fmax a b = if F.ltb a b then b else a

  -- `<` and `<=` order the values that are no NaN.
  pub record IsOrder : Type 0 where
    pub irrefl : (a : F.Carrier) → F.ltb a a ≡ false
    pub asymm : (a b : F.Carrier) → F.ltb a b ≡ true → F.ltb b a ≡ false
    pub ge_trans : (a b c : F.Carrier) → F.ltb a b ≡ false → F.ltb b c ≡ false → F.ltb a c ≡ false
    pub total : (a b : F.Carrier) → F.leb a b ≡ not (F.ltb b a)

-- Signed thousandths, with a first-order `exp`: a concrete arithmetic on which the models run.
abbrev pub signed : ℕ → ℕ → ℤ
signed p n = if Tests.leb n p then pos (p - n) else negsuc (n - p - 1)

abbrev pub milli_ltb : ℤ → ℤ → Bool
milli_ltb (pos a) (pos b) = Tests.ltb a b
milli_ltb (pos a) (negsuc b) = false
milli_ltb (negsuc a) (pos b) = true
milli_ltb (negsuc a) (negsuc b) = Tests.ltb b a

abbrev pub milli_neg : ℤ → ℤ
milli_neg (pos a) = signed 0 a
milli_neg (negsuc a) = pos (a + 1)

abbrev pub milli_add : ℤ → ℤ → ℤ
milli_add (pos a) (pos b) = pos (a + b)
milli_add (pos a) (negsuc b) = signed a (b + 1)
milli_add (negsuc a) (pos b) = signed b (a + 1)
milli_add (negsuc a) (negsuc b) = negsuc (a + b + 1)

abbrev pub milli_mul : ℤ → ℤ → ℤ
milli_mul (pos a) (pos b) = pos (a * b / 1000)
milli_mul (pos a) (negsuc b) = signed 0 (a * (b + 1) / 1000)
milli_mul (negsuc a) (pos b) = signed 0 ((a + 1) * b / 1000)
milli_mul (negsuc a) (negsuc b) = pos ((a + 1) * (b + 1) / 1000)

abbrev pub milli_div : ℤ → ℤ → ℤ
milli_div (pos a) (pos b) = pos (a * 1000 / b)
milli_div (pos a) (negsuc b) = signed 0 (a * 1000 / (b + 1))
milli_div (negsuc a) (pos b) = signed 0 ((a + 1) * 1000 / b)
milli_div (negsuc a) (negsuc b) = pos ((a + 1) * 1000 / (b + 1))

abbrev pub milli_pow : ℤ → ℕ → ℤ
milli_pow a zero = pos 1000
milli_pow a (suc n) = milli_mul a (milli_pow a n)

abbrev pub thousandths : Float
thousandths = record {
  Carrier = ℤ;
  ltb = milli_ltb;
  leb = λ a b. not (milli_ltb b a);
  add = milli_add;
  sub = λ a b. milli_add a (milli_neg b);
  mul = milli_mul;
  div = milli_div;
  neg = milli_neg;
  exp = λ a. milli_add (pos 1000) a;
  pow = milli_pow;
  lit = λ n d. pos (n * 1000 / d);
}

milli_ltb_irrefl : (a : ℤ) → milli_ltb a a ≡ false
milli_ltb_irrefl (pos a) = ground arith
milli_ltb_irrefl (negsuc a) = ground arith

milli_ltb-asymm : (a b : ℤ) → milli_ltb a b ≡ true → milli_ltb b a ≡ false
milli_ltb-asymm (pos a) (pos b) h = ground arith
milli_ltb-asymm (pos a) (negsuc b) h = cc
milli_ltb-asymm (negsuc a) (pos b) h = refl
milli_ltb-asymm (negsuc a) (negsuc b) h = ground arith

milli_ltb_trans :
    (a b c : ℤ) → milli_ltb a b ≡ false → milli_ltb b c ≡ false → milli_ltb a c ≡ false
milli_ltb_trans (pos a) (pos b) (pos c) h k = ground arith
milli_ltb_trans (pos a) b (negsuc c) h k = refl
milli_ltb_trans (pos a) (negsuc b) (pos c) h k = cc
milli_ltb_trans (negsuc a) (pos b) c h k = cc
milli_ltb_trans (negsuc a) (negsuc b) (pos c) h k = cc
milli_ltb_trans (negsuc a) (negsuc b) (negsuc c) h k = ground arith

pub thousandths-IsOrder : IsOrder thousandths
thousandths-IsOrder = record {
  irrefl = milli_ltb_irrefl;
  asymm = milli_ltb-asymm;
  ge_trans = milli_ltb_trans;
  total = λ a b. refl;
}
