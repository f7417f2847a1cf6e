-- ===== src/Sds/PrintfLaws.antt =====
-- `sdscatprintf` of redis/src/sds.c appends the whole of a formatted text.
use homemade.Prelude.{
  ℕ, zero, suc, ◌+◌, ◌-◌, ◌*◌, ◌≤◌, ◌<◌, ◌≡◌, refl, ap, ◌∙◌, true, false, some, List, [], ◌∷◌, ◌++◌,
  arith, length, ◌>>=◌, leb, take, drop, get_or, replicate, Bool-cases, inl, inr, length-append,
  length-set, length-take, length-replicate, ◌==◌,
}
use homemade.Sds.Ops.{Sds, copy_into, strlen}
use homemade.Sds.Laws.{text, IsSds, sds_catlen-IsSds, get_or-set_here, take_all}
use homemade.Sds.Printf.{c_string, vsnprintf, sds_cat, format_buffer, format_loop, sds_catprintf}

-- Text without a zero.
abbrev pub NoZero : List ℕ → Type 0
NoZero [] = Unit {0}
NoZero (c ∷ s) = ((c == 0) ≡ false) × NoZero s

-- A buffer with a text, its zero and other bytes.
abbrev buffer : List ℕ → List ℕ → List ℕ
buffer t r = (t ++ 0 ∷ []) ++ r

strlen-buffer : (t r : List ℕ) → NoZero t → strlen (buffer t r) ≡ length t
unfolding strlen
strlen-buffer [] r h = refl
strlen-buffer (c ∷ t) r h = rw (h.0) (ap suc (strlen-buffer t r h.1))

take-buffer : (t r : List ℕ) → take (length t) (buffer t r) ≡ t
take-buffer [] r = refl
take-buffer (c ∷ t) r = ap (λ w. c ∷ w) (take-buffer t r)

c_string-buffer : (t r : List ℕ) → NoZero t → c_string (buffer t r) ≡ t
c_string-buffer t r h = rw (strlen-buffer t r h) (take-buffer t r)

get_or-buffer_behind :
    (t ys : List ℕ) (k : ℕ)
    → length t ≤ k
    → get_or ys k 0 ≡ 0
    → get_or (buffer t (drop (suc (length t)) ys)) k 0 ≡ 0
get_or-buffer_behind [] ys zero h e = refl
get_or-buffer_behind [] [] (suc k) h e = refl
get_or-buffer_behind [] (y ∷ ys) (suc k) h e = e
get_or-buffer_behind (c ∷ t) ys zero h e = absurd (omega arith)
get_or-buffer_behind (c ∷ t) [] (suc k) h e = get_or-buffer_behind t [] k (omega arith) refl
get_or-buffer_behind (c ∷ t) (y ∷ ys) (suc k) h e = get_or-buffer_behind t ys k (omega arith) e

get_or-NoZero :
    (t r : List ℕ) (n i : ℕ)
    → NoZero t
    → i < n
    → i < length t
    → (get_or (buffer (take n t) r) i 0 == 0) ≡ false
get_or-NoZero [] r n i h below inside = absurd (omega arith)
get_or-NoZero (c ∷ t) r zero i h below inside = absurd (omega arith)
get_or-NoZero (c ∷ t) r (suc n) zero h below inside = h.0
get_or-NoZero (c ∷ t) r (suc n) (suc i) h below inside =
    get_or-NoZero t r n i h.1 (omega arith) (omega arith)

module _ (junk : ℕ) where
  length-format_buffer : (n : ℕ) → length (format_buffer junk n) ≡ n
  unfolding format_buffer
  length-format_buffer n = length-set (replicate n junk) (n - 2) 0 ∙ length-replicate n junk

  format_buffer_zero : (n : ℕ) → 2 ≤ n → get_or (format_buffer junk n) (n - 2) 0 ≡ 0
  unfolding format_buffer
  format_buffer_zero n h =
      get_or-set_here (replicate n junk) (n - 2) 0 0 (omega (arith, length-replicate n junk))

  -- What `vsnprintf` leaves in the buffer.
  abbrev printed : ℕ → List ℕ → List ℕ
  printed n t =
      let front = take (n - 1) t in buffer front (drop (suc (length front)) (format_buffer junk n))

  vsnprintf_buffer :
      (n : ℕ) (t : List ℕ) → 2 ≤ n → vsnprintf (format_buffer junk n) t ≡ some (printed n t)
  unfolding vsnprintf copy_into
  vsnprintf_buffer n t h =
      let size = length-format_buffer n in
      let front = take (n - 1) t in
      let last : 0 + length (front ++ 0 ∷ []) ≡ suc (length front) =
        omega (arith, length-append front (0 ∷ [])) in
      let fits : leb (suc (length front)) n ≡ true = ground (arith, length-take (n - 1) t) in
      rw (vsnprintf, copy_into, size, last, fits) refl

  -- A buffer of `n` bytes has its last byte but one 0 exactly where the text fits in front of it.
  printed-Fits :
      (n : ℕ) (t : List ℕ)
      → NoZero t
      → 2 ≤ n
      → length t + 2 ≤ n
      → ((get_or (printed n t) (n - 2) 0 == 0) ≡ true) × (c_string (printed n t) ≡ t)
  printed-Fits n t h two fits = rw (take_all (n - 1) t (omega arith)) (
    rw
        (get_or-buffer_behind t (format_buffer junk n) (n - 2) (omega arith)
          (format_buffer_zero n two))
        refl,
    c_string-buffer t _ h,
  )

  printed-IsCut :
      (n : ℕ) (t : List ℕ)
      → NoZero t
      → 2 ≤ n
      → n < length t + 2
      → (get_or (printed n t) (n - 2) 0 == 0) ≡ false
  printed-IsCut n t h two cut = get_or-NoZero t _ (n - 1) (n - 2) h (omega arith) (omega arith)

  abbrev Formats : ℕ → ℕ → List ℕ → Type 0
  Formats fuel n t = (b : List ℕ) × (format_loop junk fuel n t ≡ some b) × (c_string b ≡ t)

  -- The text fits the buffer.
  format_loop-stops :
      (fuel n : ℕ) (t : List ℕ) → NoZero t → 2 ≤ n → length t + 2 ≤ n → Formats (suc fuel) n t
  unfolding format_loop
  format_loop-stops fuel n t h two fits =
      let (stops, text') = printed-Fits n t h two fits in
      (printed n t, rw (vsnprintf_buffer n t two, ◌>>=◌, stops) refl, text')

  format_loop-Fits :
      (fuel n : ℕ) (t : List ℕ)
      → NoZero t
      → 2 ≤ n
      → length t + 2 ≤ n + fuel
      → Formats (suc fuel) n t
  unfolding format_loop
  format_loop-Fits zero n t h two enough = format_loop-stops zero n t h two (omega arith)
  format_loop-Fits (suc fuel) n t h two enough = elim (Bool-cases (leb (length t + 2) n)) [
    | inl fits ↦ format_loop-stops (suc fuel) n t h two (ground arith)
    | inr cut ↦
        let longer : n < length t + 2 = ground arith in
        let (b, run, text') = format_loop-Fits fuel (n * 2) t h (omega arith) (omega arith) in
        (b, rw (vsnprintf_buffer n t two, ◌>>=◌, printed-IsCut n t h two longer) run, text')
  ]

  -- On a well-formed string, and for a format whose text has no zero, the loop of `sdscatprintf` ends, and it
  -- appends the whole text, however long; the string stays well-formed.
  pub sds_catprintf-IsSds :
      (s : Sds) (formatted : List ℕ)
      → IsSds s
      → NoZero formatted
      → (r : Sds) × (sds_catprintf junk s formatted ≡ some r)
        × IsSds r
        × (text r ≡ text s ++ formatted)
  unfolding sds_catprintf sds_cat
  sds_catprintf-IsSds s formatted v h =
      let (b, looped, same) =
        format_loop-Fits (length formatted) 32 formatted h (omega arith) (omega arith) in
      let (r, run, v', text') = sds_catlen-IsSds junk s formatted v in
      (r, rw (looped, ◌>>=◌, same) run, v', text')
