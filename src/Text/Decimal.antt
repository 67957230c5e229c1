-- ===== src/Text/Decimal.antt =====
-- fmt's %d of a number, and strconv.ParseUint on its text.
use Prim.Native.Char.{Char, code}
use Prim.Native.String.{[], ◌∷◌}
use text.Mathlib.TextLemmas.{cons-ne-nil}
use mc_prototype.Base.{
  eq_iff, Bool-cases, inl, inr, ℕ, ◌≤◌, zero, suc, ◌+◌, ◌/◌, ◌%◌, ◌<◌, ◌≡◌, ◌≢◌, refl, String, some,
  arith, ◌==◌, if◌then◌else◌, uint64_limit,
}
use mc_prototype.Text.{parse_uint, digits_from, below}

unfoldable pub digit : ℕ → Char
digit zero = "0"
digit (suc zero) = "1"
digit (suc (suc zero)) = "2"
digit (suc (suc (suc zero))) = "3"
digit (suc (suc (suc (suc zero)))) = "4"
digit (suc (suc (suc (suc (suc zero))))) = "5"
digit (suc (suc (suc (suc (suc (suc zero)))))) = "6"
digit (suc (suc (suc (suc (suc (suc (suc zero))))))) = "7"
digit (suc (suc (suc (suc (suc (suc (suc (suc zero)))))))) = "8"
digit (suc (suc (suc (suc (suc (suc (suc (suc (suc n))))))))) = "9"

code-digit : (d : ℕ) → d < 10 → code (digit d) ≡ 48 + d
unfolding digit
code-digit zero h = refl
code-digit (suc zero) h = refl
code-digit (suc (suc zero)) h = refl
code-digit (suc (suc (suc zero))) h = refl
code-digit (suc (suc (suc (suc zero)))) h = refl
code-digit (suc (suc (suc (suc (suc zero))))) h = refl
code-digit (suc (suc (suc (suc (suc (suc zero)))))) h = refl
code-digit (suc (suc (suc (suc (suc (suc (suc zero))))))) h = refl
code-digit (suc (suc (suc (suc (suc (suc (suc (suc zero)))))))) h = refl
code-digit (suc (suc (suc (suc (suc (suc (suc (suc (suc n))))))))) h =
    let e : n ≡ 0 = omega arith in rw e refl

-- The digits of `n` in front of `out`, none of 0; there are at most `n` of them.
unfoldable pub write_digits : ℕ → ℕ → String → String
write_digits zero n out = out
write_digits (suc left) n out =
    let rest = write_digits left (n / 10) (digit (n % 10) ∷ out) in if n == 0 then out else rest

unfoldable pub format_uint : ℕ → String
format_uint n = if n == 0 then "0" else write_digits n n ""

-- Reading goes on with the last digit where the others were read.
digits_from_last :
    (n : ℕ) (out : String) → digits_from (n / 10) (digit (n % 10) ∷ out) ≡ digits_from n out
unfolding digits_from
digits_from_last n out = ground (arith, code-digit (n % 10))

digits_from-write_digits :
    (left n : ℕ) (out : String)
    → n ≤ left
    → digits_from 0 (write_digits left n out) ≡ digits_from n out
unfolding write_digits
digits_from-write_digits zero n out h = let e : n ≡ 0 = omega arith in rw e refl
digits_from-write_digits (suc left) n out h = elim (Bool-cases (n == 0)) [
  | inl e ↦ ground (arith, e)
  | inr e ↦
      let before = digits_from-write_digits left (n / 10) (digit (n % 10) ∷ out) (ground arith) in
      ground (arith, e, before, digits_from_last n out)
]

write_digits-ne-nil : (left n : ℕ) (out : String) → out ≢ "" → write_digits left n out ≢ ""
unfolding write_digits
write_digits-ne-nil zero n out h = h
write_digits-ne-nil (suc left) n out h = elim (Bool-cases (n == 0)) [
  | inl e ↦ rw e h
  | inr e ↦
      rw e (
        write_digits-ne-nil left (n / 10) (digit (n % 10) ∷ out) (cons-ne-nil (digit (n % 10)) out))
]

parse_uint-digits_from : (s : String) → s ≢ "" → parse_uint s ≡ below uint64_limit (digits_from 0 s)
unfolding parse_uint
parse_uint-digits_from [] h = absurd (h refl)
parse_uint-digits_from (c ∷ s) h = refl

-- The number 0 has no digits of its own, and is written "0".
pub format_uint-ne-nil : (n : ℕ) → format_uint n ≢ ""
unfolding format_uint write_digits
format_uint-ne-nil zero = ground (arith, eq_iff "0" "")
format_uint-ne-nil (suc n) = ground (
  arith,
  write_digits-ne-nil n (suc n / 10) (digit (suc n % 10) ∷ "")
      (cons-ne-nil (digit (suc n % 10)) ""),
)

digits_from-format_uint : (n : ℕ) → digits_from 0 (format_uint n) ≡ some n
unfolding format_uint digits_from
digits_from-format_uint n = elim (Bool-cases (n == 0)) [
  | inl e ↦ rw e (ground arith)
  | inr e ↦ rw e (digits_from-write_digits n n "" (omega arith))
]

-- The decimal text of a number below 2^64 is read back as that number.
pub parse_uint-format_uint : (n : ℕ) → n < uint64_limit → parse_uint (format_uint n) ≡ some n
unfolding below
parse_uint-format_uint n h =
    let read = digits_from-format_uint n in
    let step = parse_uint-digits_from (format_uint n) (format_uint-ne-nil n) in
    ground (arith, read, step)
