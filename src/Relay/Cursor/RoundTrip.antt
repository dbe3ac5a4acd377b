-- ===== src/Relay/Cursor/RoundTrip.antt =====
-- parseCursor reads back what formatCursor writes (services/sync-relay/src/store.ts).
use teacher_assistant.Base.{
  ℕ, zero, suc, ◌+◌, ◌-◌, ◌*◌, ◌/◌, ◌%◌, ◌^◌, ◌≤◌, ◌<◌, ◌≡◌, refl, Bool, true, [], ◌∷◌, ◌++◌, none,
  some, arith, ltb, length, length-append, Bool-cases, inl, inr,
}
use native.Mathlib.Nat.{pow-suc}
use teacher_assistant.Relay.Types.{Text}
use teacher_assistant.Relay.Cursor.{
  same_text, all, is_digit, is_epoch, is_digits, split_last_dot, number_from, parse_parts,
  parse_cursor, digits_of, decimal, format_cursor,
}

-- `===` on texts.
pub same_text_refl : (t : Text) → same_text t t ≡ true
unfolding same_text
same_text_refl [] = refl
same_text_refl (x ∷ xs) = ground (arith, same_text_refl xs)

pub same_text_sound : (s t : Text) → same_text s t ≡ true → s ≡ t
unfolding same_text
same_text_sound [] [] h = refl
same_text_sound [] (y ∷ ys) h = cc
same_text_sound (x ∷ xs) [] h = cc
same_text_sound (x ∷ xs) (y ∷ ys) h = ground (arith, same_text_sound xs ys)

number_from-append :
    (acc : ℕ) (xs : Text) (c : ℕ)
    → number_from acc (xs ++ c ∷ []) ≡ number_from acc xs * 10 + (c - b'0')
unfolding number_from
number_from-append acc [] c = refl
number_from-append acc (x ∷ xs) c = number_from-append (acc * 10 + (x - b'0')) xs c

number_from-digits_of : (f n : ℕ) → n < f → number_from 0 (digits_of f n) ≡ n
unfolding digits_of number_from
number_from-digits_of zero n h = absurd (omega arith)
number_from-digits_of (suc f) n h = elim (Bool-cases (ltb n 10)) [
  | inl one ↦ rw one (ground arith)
  | inr more ↦
      rw
        (
          more,
          number_from-append 0 (digits_of f (n / 10)) (b'0' + n % 10),
          number_from-digits_of f (n / 10) (ground arith),
        )
        (omega arith)
]

all-append :
    (p : ℕ → Bool) (xs ys : Text) → all p xs ≡ true → all p ys ≡ true → all p (xs ++ ys) ≡ true
all-append p [] ys h k = k
all-append p (x ∷ xs) ys h k = ground (arith, all-append p xs ys)

digits_of-all : (f n : ℕ) → all is_digit (digits_of f n) ≡ true
unfolding digits_of
digits_of-all zero n = refl
digits_of-all (suc f) n = elim (Bool-cases (ltb n 10)) [
  | inl one ↦ rw one (ground arith)
  | inr more ↦
      rw more
        (all-append is_digit (digits_of f (n / 10)) _ (digits_of-all f (n / 10)) (ground arith))
]

length-digits_of : (f n : ℕ) → n < f → 1 ≤ length (digits_of f n)
unfolding digits_of
length-digits_of zero n h = absurd (omega arith)
length-digits_of (suc f) n h =
    ground (arith, length-append (digits_of f (n / 10)) ((b'0' + n % 10) ∷ []))

below_tenth : (k n : ℕ) → n < 10 ^ suc (suc k) → n / 10 < 10 ^ suc k
below_tenth k n h = let e : 10 ^ suc (suc k) ≡ 10 ^ suc k * 10 = pow-suc 10 (suc k) in omega arith

-- A number below 10 ^ k has at most k digits, for k from 1 on.
length-digits_of-le : (k f n : ℕ) → n < 10 ^ suc k → length (digits_of f n) ≤ suc k
unfolding digits_of
length-digits_of-le k zero n h = omega arith
length-digits_of-le zero (suc f) n h = ground arith
length-digits_of-le (suc k) (suc f) n h = ground (
  arith,
  length-append (digits_of f (n / 10)) ((b'0' + n % 10) ∷ []),
  length-digits_of-le k f (n / 10) (below_tenth k n h),
)

split_last_dot-digits : (ds : Text) → all is_digit ds ≡ true → split_last_dot ds ≡ none
unfolding split_last_dot
split_last_dot-digits [] h = refl
split_last_dot-digits (c ∷ cs) h = ground (arith, split_last_dot-digits cs)

split_last_dot_lem :
    (e ds : Text) → all is_digit ds ≡ true → split_last_dot (e ++ b'.' ∷ ds) ≡ some (e, ds)
unfolding split_last_dot
split_last_dot_lem [] ds h = ground (arith, split_last_dot-digits ds h)
split_last_dot_lem (c ∷ cs) ds h = rw (split_last_dot_lem cs ds h, split_last_dot)

pub decimal-digits : (n : ℕ) → all is_digit (decimal n) ≡ true
unfolding decimal
decimal-digits n = digits_of-all (suc n) n

pub number-decimal : (n : ℕ) → number_from 0 (decimal n) ≡ n
unfolding decimal
number-decimal n = number_from-digits_of (suc n) n (omega arith)

length-decimal :
    (n : ℕ) → n < 9_007_199_254_740_992 → (1 ≤ length (decimal n)) × (length (decimal n) ≤ 16)
unfolding decimal
length-decimal n h =
    (length-digits_of (suc n) n (omega arith), length-digits_of-le 15 (suc n) n (omega arith))

is_epoch-length : (e : Text) → is_epoch e ≡ true → (1 ≤ length e) × (length e ≤ 64)
unfolding is_epoch
is_epoch-length e h = ground arith

-- Parsing a formatted cursor gives back its epoch and sequence number, for an epoch of the relay's
-- alphabet and a sequence number below 2 ^ 53.
pub parse_cursor-format_cursor :
    (e : Text) (n : ℕ)
    → is_epoch e ≡ true
    → n < 9_007_199_254_740_992
    → parse_cursor (some (format_cursor e n)) ≡ record { epoch = some e; seq = n }
unfolding parse_cursor parse_parts format_cursor is_digits
parse_cursor-format_cursor e n he hn =
    rw (split_last_dot_lem e (decimal n) (decimal-digits n), parse_cursor)
      (ground (
        arith,
        length-append e (b'.' ∷ decimal n),
        length-decimal n hn,
        is_epoch-length e he,
        decimal-digits n,
        number-decimal n,
      ))
