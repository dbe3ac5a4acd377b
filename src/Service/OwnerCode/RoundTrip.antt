-- ===== src/Service/OwnerCode/RoundTrip.antt =====
-- The code that the operator prints is the code that is redeemed
-- (services/sync-relay/src/owner-code.ts).
use teacher_assistant.Base.{
  ℕ, zero, suc, ◌+◌, ◌≤◌, ◌<◌, ◌≡◌, refl, ap, ◌∙◌, Bool, true, false, ◌&&◌, ◌||◌, not, List, [],
  ◌∷◌, map, some, arith, ◌==◌, leb, ltb, length, filter, contains, inl, inr, Bool-cases,
}
use teacher_assistant.Relay.Types.{Text}
use teacher_assistant.Service.Platform.{Platform}
use teacher_assistant.Service.OwnerCode.{
  alphabet, letter_at, new_owner_code, format_owner_code, plain_digit, all_in, units,
  canonical_owner_code, owner_code_length, max_owner_code_input,
}

-- Upper-casing leaves capitals, digits and hyphens alone, and none of these is white space.
unfoldable pub is_printed : ℕ → Bool
is_printed c = leb b'0' c && leb c b'9' || leb b'A' c && leb c b'Z' || c == b'-'

abbrev pub all_of : (ℕ → Bool) → Text → Bool
all_of p [] = true
all_of p (c ∷ cs) = p c && all_of p cs

pub record IsAscii (P : Platform) : Type 0 where
  pub upper : (t : Text) → all_of is_printed t ≡ true → P.to_upper t ≡ t
  pub no_space : (c : ℕ) → is_printed c ≡ true → P.is_space c ≡ false

unfoldable in_alphabet : ℕ → Bool
in_alphabet c = contains c alphabet

-- What the steps of the canonical form need of a letter of the alphabet.
unfoldable is_plain : ℕ → Bool
is_plain c = (plain_digit c == c) && ltb c 65_536 && not (c == b'-')

abbrev is_fixed : ℕ → Bool
is_fixed c = in_alphabet c && is_printed c && is_plain c

-- A test of all the numbers below a bound.
unfoldable all_below : (ℕ → Bool) → ℕ → Bool
all_below p zero = true
all_below p (suc n) = p n && all_below p n

all_below_lem : (p : ℕ → Bool) (n k : ℕ) → all_below p n ≡ true → k < n → p k ≡ true
unfolding all_below
all_below_lem p zero k h l = absurd (omega arith)
all_below_lem p (suc n) k h l = elim (Bool-cases (k == n)) [
  | inl e ↦ here (p n) (all_below p n) (p k) h (ap p (ground arith))
  | inr e ↦ all_below_lem p n k (rest (p n) (all_below p n) h) (ground arith)
]
  where
    here : (a b c : Bool) → (a && b) ≡ true → c ≡ a → c ≡ true
    here true b c h e = e
    here false b c h e = absurd (ground arith)

    rest : (a b : Bool) → (a && b) ≡ true → b ≡ true
    rest true b h = h
    rest false b h = absurd (ground arith)

unfoldable fixed_at : ℕ → Bool
fixed_at n = is_fixed (letter_at n alphabet)

alphabet_fixed : all_below fixed_at 32 ≡ true
unfolding all_below fixed_at in_alphabet is_printed is_plain
alphabet_fixed = refl

abbrev pub all_draws : List ℕ → Bool
all_draws [] = true
all_draws (n ∷ ns) = ltb n 32 && all_draws ns

letter-is_fixed : (n : ℕ) → ltb n 32 ≡ true → is_fixed (letter_at n alphabet) ≡ true
unfolding fixed_at
letter-is_fixed n h = all_below_lem fixed_at 32 n alphabet_fixed (ground arith)

new_owner_code-all_fixed :
    (draws : List ℕ) → all_draws draws ≡ true → all_of is_fixed (new_owner_code draws) ≡ true
unfolding new_owner_code
new_owner_code-all_fixed [] h = refl
new_owner_code-all_fixed (n ∷ ns) h =
    rw (letter-is_fixed n (ground arith), new_owner_code-all_fixed ns (ground arith))

new_owner_code-length : (draws : List ℕ) → length (new_owner_code draws) ≡ length draws
unfolding new_owner_code
new_owner_code-length [] = refl
new_owner_code-length (n ∷ ns) = ap suc (new_owner_code-length ns)

plain-digit : (c : ℕ) → is_plain c ≡ true → plain_digit c ≡ c
unfolding is_plain
plain-digit c h = ground arith

plain-dash : (c : ℕ) → is_plain c ≡ true → (c == b'-') ≡ false
unfolding is_plain
plain-dash c h = ground arith

plain-small : (c : ℕ) → is_plain c ≡ true → ltb c 65_536 ≡ true
unfolding is_plain
plain-small c h = ground arith

-- The steps of the canonical form on letters of the alphabet.
map-plain_digit : (t : Text) → all_of is_fixed t ≡ true → map plain_digit t ≡ t
map-plain_digit [] h = refl
map-plain_digit (c ∷ t) h = rw (plain-digit c (ground arith), map-plain_digit t (ground arith))

all_in-all_of : (set t : Text) → all_of (λ c. contains c set) t ≡ true → all_in set t ≡ true
all_in-all_of set [] h = refl
all_in-all_of set (c ∷ t) h = ground (arith, all_in-all_of set t)

all_of-format_owner_code :
    (p : ℕ → Bool) (t : Text)
    → p b'-' ≡ true
    → all_of p t ≡ true
    → all_of p (format_owner_code t) ≡ true
unfolding format_owner_code
all_of-format_owner_code p [] k h = h
all_of-format_owner_code p (a ∷ []) k h = h
all_of-format_owner_code p (a ∷ b ∷ []) k h = h
all_of-format_owner_code p (a ∷ b ∷ c ∷ []) k h = h
all_of-format_owner_code p (a ∷ b ∷ c ∷ d ∷ []) k h = h
all_of-format_owner_code p (a ∷ b ∷ c ∷ d ∷ e ∷ t) k h =
    ground (arith, all_of-format_owner_code p (e ∷ t) k)

all_of_weaken :
    (p q : ℕ → Bool) (t : Text)
    → ((c : ℕ) → p c ≡ true → q c ≡ true)
    → all_of p t ≡ true
    → all_of q t ≡ true
all_of_weaken p q [] f h = refl
all_of_weaken p q (c ∷ t) f h = ground (arith, f c, all_of_weaken p q t f)

-- A filter that drops hyphens and nothing else takes the hyphens of the print away.
filter-format_owner_code :
    (p : ℕ → Bool) (t : Text)
    → p b'-' ≡ false
    → all_of p t ≡ true
    → filter p (format_owner_code t) ≡ t
unfolding format_owner_code
filter-format_owner_code p [] k h = refl
filter-format_owner_code p (a ∷ []) k h = ground arith
filter-format_owner_code p (a ∷ b ∷ []) k h = ground arith
filter-format_owner_code p (a ∷ b ∷ c ∷ []) k h = ground arith
filter-format_owner_code p (a ∷ b ∷ c ∷ d ∷ []) k h = ground arith
filter-format_owner_code p (a ∷ b ∷ c ∷ d ∷ e ∷ t) k h =
    ground (arith, filter-format_owner_code p (e ∷ t) k)

units-length : (t : Text) → all_of (λ c. ltb c 65_536) t ≡ true → units t ≡ length t
units-length [] h = refl
units-length (c ∷ t) h = ground (arith, units-length t)

length-format_owner_code : (t : Text) → length (format_owner_code t) ≤ length t + length t
unfolding format_owner_code
length-format_owner_code [] = omega arith
length-format_owner_code (a ∷ []) = omega arith
length-format_owner_code (a ∷ b ∷ []) = omega arith
length-format_owner_code (a ∷ b ∷ c ∷ []) = omega arith
length-format_owner_code (a ∷ b ∷ c ∷ d ∷ []) = omega arith
length-format_owner_code (a ∷ b ∷ c ∷ d ∷ e ∷ t) = omega (arith, length-format_owner_code (e ∷ t))

fixed-plain : (c : ℕ) → is_fixed c ≡ true → is_plain c ≡ true
fixed-plain c h = ground arith

abbrev is_kept : Platform → ℕ → Bool
is_kept P c = not (c == b'-' || P.is_space c)

fixed-is_kept : (P : Platform) → IsAscii P → (c : ℕ) → is_fixed c ≡ true → is_kept P c ≡ true
fixed-is_kept P ascii c h = rw (plain-dash c (ground arith), ascii.no_space c (ground arith))

printed_letter : (c : ℕ) → is_fixed c ≡ true → is_printed c ≡ true
printed_letter c h = ground arith

letter-in_alphabet : (c : ℕ) → is_fixed c ≡ true → in_alphabet c ≡ true
letter-in_alphabet c h = ground arith

fixed-in_alphabet : (c : ℕ) → is_fixed c ≡ true → contains c alphabet ≡ true
unfolding in_alphabet
fixed-in_alphabet c h = letter-in_alphabet c h

module _ (P : Platform) (ascii : IsAscii P) (t : Text) (h : all_of is_fixed t ≡ true) where
  printed : all_of is_printed (format_owner_code t) ≡ true
  unfolding is_printed
  printed =
      all_of-format_owner_code is_printed t refl
        (all_of_weaken is_fixed is_printed t printed_letter h)

  short :
      length t ≡ owner_code_length → ltb max_owner_code_input (units (format_owner_code t)) ≡ false
  short l = ground (
    arith,
    units-length (format_owner_code t) (
        all_of-format_owner_code (λ c. ltb c 65_536) t refl
          (all_of_weaken is_fixed (λ c. ltb c 65_536) t (λ c k. plain-small c (fixed-plain c k))
            h)),
    length-format_owner_code t,
  )

  in_all : all_in alphabet t ≡ true
  in_all =
      all_in-all_of alphabet t
        (all_of_weaken is_fixed (λ c. contains c alphabet) t fixed-in_alphabet h)

  canonical_code :
      length t ≡ owner_code_length → canonical_owner_code P (format_owner_code t) ≡ some t
  unfolding canonical_owner_code
  canonical_code l = rw (
    short l,
    ascii.upper (format_owner_code t) printed,
    filter-format_owner_code (is_kept P) t refl
        (all_of_weaken is_fixed (is_kept P) t (fixed-is_kept P ascii) h),
    map-plain_digit t h,
    l,
    in_all,
  )

-- Whatever 26 letters the relay draws for an owner code, the code as it is printed, in groups of four
-- letters, has the drawn letters as its canonical form, so that it is the code that was issued.
pub canonical_owner_code-format_owner_code :
    (P : Platform) (draws : List ℕ)
    → IsAscii P
    → all_draws draws ≡ true
    → length draws ≡ owner_code_length
    → canonical_owner_code P (format_owner_code (new_owner_code draws))
      ≡ some (new_owner_code draws)
canonical_owner_code-format_owner_code P draws ascii h l =
    canonical_code P ascii (new_owner_code draws) (new_owner_code-all_fixed draws h)
      (new_owner_code-length draws ∙ l)
