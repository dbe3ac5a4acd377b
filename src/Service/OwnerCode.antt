-- ===== src/Service/OwnerCode.antt =====
-- services/sync-relay/src/owner-code.ts. The random draws are an argument.
pub mod RoundTrip
use Prim.Native.String.{String}
use teacher_assistant.Base.{
  ℕ, zero, suc, ◌+◌, Bool, true, false, ◌&&◌, ◌||◌, not, List, [], ◌∷◌, map, Option, none, some,
  ◌==◌, ltb, if◌then◌else◌, length, filter, contains,
}
use teacher_assistant.Base.Texts.{codes}
use teacher_assistant.Relay.Types.{Text}
use teacher_assistant.Service.Platform.{Platform}

abbrev pub alphabet : Text
alphabet = codes "0123456789ABCDEFGHJKMNPQRSTVWXYZ"

abbrev pub owner_code_length : ℕ
owner_code_length = 26

abbrev pub max_owner_code_input : ℕ
max_owner_code_input = 64

abbrev pub letter_at : ℕ → Text → ℕ
letter_at n [] = 0
letter_at zero (c ∷ cs) = c
letter_at (suc n) (c ∷ cs) = letter_at n cs

-- `ALPHABET[randomInt(32)]` for each draw.
unfoldable pub new_owner_code : List ℕ → Text
new_owner_code draws = map (λ n. letter_at n alphabet) draws

-- The groups of `/.{1,4}/g` joined by hyphens.
unfoldable pub format_owner_code : Text → Text
format_owner_code (a ∷ b ∷ c ∷ d ∷ e ∷ rest) = a ∷ b ∷ c ∷ d ∷ b'-' ∷ format_owner_code (e ∷ rest)
format_owner_code short = short

-- `replace(/[IL]/g, "1").replace(/O/g, "0")`
abbrev pub plain_digit : ℕ → ℕ
plain_digit c = if c == b'I' || c == b'L' then b'1' else if c == b'O' then b'0' else c

abbrev pub all_in : Text → Text → Bool
all_in set [] = true
all_in set (c ∷ cs) = contains c set && all_in set cs

-- The number of UTF-16 code units.
abbrev pub units : Text → ℕ
units [] = 0
units (c ∷ cs) = (if ltb c 65_536 then 1 else 2) + units cs

unfoldable pub canonical_owner_code : Platform → Text → Option Text
canonical_owner_code P input =
    let code = map plain_digit (filter (λ c. not (c == b'-' || P.is_space c)) (P.to_upper input)) in
    if ltb max_owner_code_input (units input)
    then none
    else if not (length code == owner_code_length) || not (all_in alphabet code)
    then none
    else some code

unfoldable pub owner_code_hash : Platform → String → Option ℕ
owner_code_hash P input = elim (canonical_owner_code P (codes input)) [
  | none ↦ none
  | some code ↦ some (P.sha256 code)
]
