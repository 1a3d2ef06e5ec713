-- ===== src/Prelude/Text.antt =====
-- C strings as lists of bytes, without the terminator, and the decimal form that `%d`, `%u` and
-- `%llu` of `snprintf` print.
use Prim.Native.Char.{code}
use Prim.Native.String.{String}
use Prim.Native.Nat.{ℕ, zero, suc, ◌+◌, ◌/◌, ◌%◌, ◌≤◌}
use mathlib.Core.Bool.{Bool, true, false, ◌&&◌}
use mathlib.Core.Path.{◌≡◌, refl}
use mathlib.Core.List.{List, [], ◌∷◌}
use native.Mathlib.Omega.{arith}
use rdp_mcp.Prelude.Tests.{ltb, ◌==◌, if◌then◌else◌}
use rdp_mcp.Prelude.Lists.{length}
use rdp_mcp.Prelude.Int.{ℤ, pos, negsuc}

abbrev pub Bytes : Type 0
Bytes = List ℕ

-- The bytes of an ASCII literal.
abbrev pub codes : String → Bytes
codes String.[] = []
codes (String.◌∷◌ c s) = code c ∷ codes s

-- `strcmp(s, t) == 0`.
abbrev pub same_text : Bytes → Bytes → Bool
same_text [] [] = true
same_text [] (d ∷ t) = false
same_text (c ∷ s) [] = false
same_text (c ∷ s) (d ∷ t) = c == d && same_text s t

pub same_text_refl : (s : Bytes) → same_text s s ≡ true
same_text_refl [] = refl
same_text_refl (c ∷ s) = ground (arith, same_text_refl s)

pub same_text→eq : (s t : Bytes) → same_text s t ≡ true → s ≡ t
same_text→eq [] [] h = refl
same_text→eq [] (d ∷ t) h = ground arith
same_text→eq (c ∷ s) [] h = ground arith
same_text→eq (c ∷ s) (d ∷ t) h = ground (arith, same_text→eq s t)

-- The decimal digits of `n`, most significant first, before `rest`; 20 rounds print a UINT64.
unfoldable pub decimal_loop : ℕ → ℕ → Bytes → Bytes
decimal_loop zero n rest = rest
decimal_loop (suc f) n rest =
    let more = decimal_loop f (n / 10) ((48 + n % 10) ∷ rest) in
    if ltb n 10 then (48 + n) ∷ rest else more

unfoldable pub decimal : ℕ → Bytes
unfolding decimal_loop
decimal n = decimal_loop 20 n []

-- `%d`.
unfoldable pub decimal_ℤ : ℤ → Bytes
unfolding decimal
decimal_ℤ (pos n) = decimal n
decimal_ℤ (negsuc n) = b'-' ∷ decimal (suc n)

length-decimal_loop : (f n : ℕ) (rest : Bytes) → length (decimal_loop f n rest) ≤ f + length rest
unfolding decimal_loop
length-decimal_loop zero n rest = omega arith
length-decimal_loop (suc f) n rest =
    ground (arith, length-decimal_loop f (n / 10) ((48 + n % 10) ∷ rest))

pub length-decimal : (n : ℕ) → length (decimal n) ≤ 20
unfolding decimal
length-decimal n = omega (arith, length-decimal_loop 20 n [])

pub length-decimal_ℤ : (a : ℤ) → length (decimal_ℤ a) ≤ 21
unfolding decimal_ℤ
length-decimal_ℤ (pos n) = omega (arith, length-decimal n)
length-decimal_ℤ (negsuc n) = omega (arith, length-decimal (suc n))
