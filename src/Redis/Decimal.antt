-- ===== src/Redis/Decimal.antt =====
-- The decimal conversions of the C library that redis/src/redis.c calls: `%d` and `%lld` of
-- `sdscatprintf`, `strtoll` and `atoi`. A number out of the range of `long long` is cut to that range by
-- `strtoll`; what `atoi` does out of the range of `int` is undefined in C, here it returns the number.
use homemade.Prelude.{
  ℕ, zero, suc, ◌+◌, ◌-◌, ◌*◌, ◌/◌, ◌%◌, ◌≤◌, ◌<◌, ◌≡◌, refl, ap, ◌∙◌, Bool, true, ◌&&◌, ◌||◌, [],
  ◌∷◌, ◌++◌, arith, ltb, leb, ◌==◌, if◌then◌else◌, Bool-cases, inl, inr,
}
use homemade.Prelude.Int.{ℤ, pos, negsuc, pos_part, neg_part, sub_ℕ}
use homemade.Redis.Object.{Bytes}

unfoldable pub print_loop : ℕ → ℕ → Bytes
print_loop zero n = []
print_loop (suc fuel) n =
    let rest = print_loop fuel (n / 10) in
    if ltb n 10 then (48 + n) ∷ [] else rest ++ ((48 + n % 10) ∷ [])

-- A number has at most as many digits as it counts, plus one.
unfoldable pub print_ℕ : ℕ → Bytes
unfolding print_loop
print_ℕ n = print_loop (n + 1) n

-- `%d` and `%lld`
unfoldable pub print_ℤ : ℤ → Bytes
unfolding print_ℕ
print_ℤ (pos n) = print_ℕ n
print_ℤ (negsuc n) = b'-' ∷ print_ℕ (suc n)

abbrev pub is_digit : ℕ → Bool
is_digit c = leb 48 c && leb c 57

-- `isspace` in the C locale
abbrev is_space : ℕ → Bool
is_space c = c == 32 || (leb 9 c && leb c 13)

unfoldable pub read_digits : ℕ → Bytes → ℕ
read_digits acc [] = acc
read_digits acc (c ∷ s) =
    let more = read_digits (acc * 10 + (c - 48)) s in if is_digit c then more else acc

unfoldable pub read_signed : Bytes → ℤ
unfolding read_digits
read_signed [] = pos 0
read_signed (c ∷ s) =
    if c == b'-'
    then sub_ℕ 0 (read_digits 0 s)
    else if c == b'+'
    then pos (read_digits 0 s)
    else pos (read_digits 0 (c ∷ s))

unfoldable pub skip_spaces : Bytes → Bytes
skip_spaces [] = []
skip_spaces (c ∷ s) = let rest = skip_spaces s in if is_space c then rest else c ∷ s

abbrev pub llong_max : ℕ
llong_max = 9223372036854775807

unfoldable pub clamp : ℤ → ℤ
clamp (pos n) = if leb n llong_max then pos n else pos llong_max
clamp (negsuc n) = if leb n llong_max then negsuc n else negsuc llong_max

-- `strtoll(s, &eptr, 10)`
unfoldable pub strtoll : Bytes → ℤ
unfolding clamp read_signed skip_spaces
strtoll s = clamp (read_signed (skip_spaces s))

-- `atoi(s)`; a number out of the range of `int` is undefined in C, here it is the number
unfoldable pub atoi : Bytes → ℤ
unfolding read_signed skip_spaces
atoi s = read_signed (skip_spaces s)

abbrev pub All : (ℕ → Bool) → Bytes → Type 0
All p [] = Unit
All p (c ∷ s) = (p c ≡ true) × All p s

All-append : (p : ℕ → Bool) (s t : Bytes) → All p s → All p t → All p (s ++ t)
All-append p [] t h k = k
All-append p (c ∷ s) t h k = (h.0, All-append p s t h.1 k)

read_digits-append :
    (acc : ℕ) (s t : Bytes)
    → All is_digit s
    → read_digits acc (s ++ t) ≡ read_digits (read_digits acc s) t
unfolding read_digits
read_digits-append acc [] t h = refl
read_digits-append acc (c ∷ s) t h = rw (h.0, read_digits-append (acc * 10 + (c - 48)) s t h.1)

print_loop-digits : (fuel n : ℕ) → All is_digit (print_loop fuel n)
unfolding print_loop
print_loop-digits zero n = tt
print_loop-digits (suc fuel) n = elim (Bool-cases (ltb n 10)) [
  | inl small ↦ rw small (ground arith, tt)
  | inr big ↦ rw big (
      All-append is_digit (print_loop fuel (n / 10)) _ (print_loop-digits fuel (n / 10))
        (ground arith, tt))
]

read_digits-print_loop : (fuel n : ℕ) → n < fuel → read_digits 0 (print_loop fuel n) ≡ n
unfolding print_loop read_digits
read_digits-print_loop zero n h = absurd (omega arith)
read_digits-print_loop (suc fuel) n h = elim (Bool-cases (ltb n 10)) [
  | inl small ↦ rw small (ground arith)
  | inr big ↦
      rw
        (
          big,
          read_digits-append 0 (print_loop fuel (n / 10)) ((48 + n % 10) ∷ [])
              (print_loop-digits fuel (n / 10)),
          read_digits-print_loop fuel (n / 10) (ground arith),
        )
        (ground arith)
]

read_digits-print_ℕ : (n : ℕ) → read_digits 0 (print_ℕ n) ≡ n
unfolding print_ℕ
read_digits-print_ℕ n = read_digits-print_loop (n + 1) n (omega arith)

read_signed-digits :
    (s : Bytes) → All is_digit s → read_signed (skip_spaces s) ≡ pos (read_digits 0 s)
unfolding read_signed skip_spaces read_digits
read_signed-digits [] h = refl
read_signed-digits (c ∷ s) h = ground (arith, h.0)

pub print_ℕ-digits : (n : ℕ) → All is_digit (print_ℕ n)
unfolding print_ℕ
print_ℕ-digits n = print_loop-digits (n + 1) n

pub atoi-print_ℕ : (n : ℕ) → atoi (print_ℕ n) ≡ pos n
unfolding atoi print_ℕ
atoi-print_ℕ n =
    read_signed-digits (print_ℕ n) (print_loop-digits (n + 1) n) ∙ ap pos (read_digits-print_ℕ n)

atoi-print_ℤ : (z : ℤ) → atoi (print_ℤ z) ≡ z
unfolding atoi print_ℤ
atoi-print_ℤ (pos n) = atoi-print_ℕ n
atoi-print_ℤ (negsuc n) = ground (arith, read_digits-print_ℕ (suc n))

-- `z` fits an `int`.
abbrev pub IsInt : ℤ → Type 0
IsInt z = (pos_part z ≤ 2147483647) × (neg_part z ≤ 2147483648)

abbrev pub is_int : ℤ → Bool
is_int z = leb (pos_part z) 2147483647 && leb (neg_part z) 2147483648

abbrev pub is_llong : ℤ → Bool
is_llong z = leb (pos_part z) llong_max && leb (neg_part z) (llong_max + 1)

pub IsInt-is_int : (z : ℤ) → is_int z ≡ true → IsInt z
IsInt-is_int z h = (ground (arith, h), ground (arith, h))

pub is_int-IsInt : (z : ℤ) → IsInt z → is_int z ≡ true
is_int-IsInt z h = ground (arith, h.0, h.1)

-- `z` fits a `long long`.
abbrev pub IsLlong : ℤ → Type 0
IsLlong z = (pos_part z ≤ llong_max) × (neg_part z ≤ llong_max + 1)

pub IsLlong-is_llong : (z : ℤ) → is_llong z ≡ true → IsLlong z
IsLlong-is_llong z h = (ground (arith, h), ground (arith, h))

pub is_llong-IsLlong : (z : ℤ) → IsLlong z → is_llong z ≡ true
is_llong-IsLlong z h = ground (arith, h.0, h.1)

-- `strtoll` reads back what `%lld` prints, for every `long long`.
pub strtoll-print_ℤ : (z : ℤ) → IsLlong z → strtoll (print_ℤ z) ≡ z
unfolding strtoll print_ℤ atoi
strtoll-print_ℤ z h = ap clamp (atoi-print_ℤ z) ∙ clamp_id z h
  where
    clamp_id : (z : ℤ) → IsLlong z → clamp z ≡ z
    clamp_id (pos n) h = ground arith
    clamp_id (negsuc n) h = ground arith
