-- ===== src/Base/Texts.antt =====
-- JavaScript's strings, as texts of code points, and the tests that regular expressions make.
use Prim.Native.Nat.{ℕ, zero, suc, ◌+◌, ◌*◌}
use Prim.Native.String.{String, [] as no_chars, ◌∷◌ as ◌then◌}
use Prim.Native.Char.{code}
use mathlib.Core.List.{List, [], ◌∷◌}
use mathlib.Core.Bool.{Bool, true, false, ◌&&◌, ◌||◌}
use teacher_assistant.Base.Tests.{ltb, leb, if◌then◌else◌}

unfoldable pub all_chars : (ℕ → Bool) → String → Bool
all_chars p no_chars = true
all_chars p (c then s) = p (code c) && all_chars p s

unfoldable pub any_char : (ℕ → Bool) → String → Bool
any_char p no_chars = false
any_char p (c then s) = p (code c) || any_char p s

abbrev pub is_end : String → Bool
is_end no_chars = true
is_end (c then s) = false

-- `length`: a code point beyond 2 ^ 16 takes two code units.
unfoldable pub utf16_length : String → ℕ
utf16_length no_chars = 0
utf16_length (c then s) = (if ltb (code c) 65_536 then 1 else 2) + utf16_length s

-- A number for each text, by which texts are told apart.
unfoldable pub number_of : String → ℕ
number_of no_chars = 0
number_of (c then s) = 1 + code c + 1_114_112 * number_of s

abbrev pub in_range : ℕ → ℕ → ℕ → Bool
in_range lo hi c = leb lo c && leb c hi

-- `p` n times, and then the rest.
unfoldable pub repeat_then : ℕ → (ℕ → Bool) → (String → Bool) → String → Bool
repeat_then zero p rest s = rest s
repeat_then (suc n) p rest no_chars = false
repeat_then (suc n) p rest (c then s) = p (code c) && repeat_then n p rest s

abbrev pub codes : String → List ℕ
codes no_chars = []
codes (c then s) = code c ∷ codes s
