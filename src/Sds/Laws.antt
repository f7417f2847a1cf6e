-- ===== src/Sds/Laws.antt =====
-- What the operations of redis/src/sds.c do to the text of a string.
use homemade.Prelude.{
  ℕ, zero, suc, ◌+◌, ◌-◌, ◌*◌, ◌≤◌, ◌<◌, ◌≡◌, refl, sym, ap, ◌∙◌, true, false, none, some, List, [],
  ◌∷◌, ◌++◌, arith, length, ◌>>=◌, >>=-eq-some, ltb, leb, take, drop, get_or, set, replicate,
  Bool-cases, inl, inr, length-append, length-set, length-take, length-drop, length-replicate,
}
use homemade.Sds.Ops.{Sds, copy_into, terminate, realloc, sds_make_room_for, sds_catlen, sds_cpylen}

-- The bytes of a string.
abbrev pub text : Sds → List ℕ
text s = take s.len s.buf

-- The allocated bytes are the text, the free space and the terminating zero, which is set.
pub record IsSds (s : Sds) : Type 0 where
  pub allocated : length s.buf ≡ s.len + s.free + 1
  pub terminated : get_or s.buf s.len 1 ≡ 0

pub take-append_le : (n : ℕ) (xs ys : List ℕ) → n ≤ length xs → take n (xs ++ ys) ≡ take n xs
take-append_le zero xs ys h = refl
take-append_le (suc n) [] ys h = absurd (omega arith)
take-append_le (suc n) (x ∷ xs) ys h = ap (λ zs. x ∷ zs) (take-append_le n xs ys (omega arith))

pub take-take_le : (m n : ℕ) (xs : List ℕ) → m ≤ n → take m (take n xs) ≡ take m xs
take-take_le zero n xs h = refl
take-take_le (suc m) zero xs h = absurd (omega arith)
take-take_le (suc m) (suc n) [] h = refl
take-take_le (suc m) (suc n) (x ∷ xs) h = ap (λ zs. x ∷ zs) (take-take_le m n xs (omega arith))

pub take-set : (n : ℕ) (xs : List ℕ) (v : ℕ) → take n (set xs n v) ≡ take n xs
take-set zero xs v = refl
take-set (suc n) [] v = refl
take-set (suc n) (x ∷ xs) v = ap (λ zs. x ∷ zs) (take-set n xs v)

pub get_or-set_here : (xs : List ℕ) (n v d : ℕ) → n < length xs → get_or (set xs n v) n d ≡ v
get_or-set_here [] n v d h = absurd (omega arith)
get_or-set_here (x ∷ xs) zero v d h = refl
get_or-set_here (x ∷ xs) (suc n) v d h = get_or-set_here xs n v d (omega arith)

pub take_all : (n : ℕ) (xs : List ℕ) → length xs ≤ n → take n xs ≡ xs
take_all zero [] h = refl
take_all zero (x ∷ xs) h = absurd (omega arith)
take_all (suc n) [] h = refl
take_all (suc n) (x ∷ xs) h = ap (λ zs. x ∷ zs) (take_all n xs (omega arith))

-- Writing `t` behind the first `offset` bytes and a zero behind that.
copy-terminate :
    (buf : List ℕ) (offset : ℕ) (t : List ℕ)
    → offset + length t < length buf
    → (b : List ℕ) × ((copy_into buf offset t >>= λ b. terminate b (offset + length t)) ≡ some b)
      × (length b ≡ length buf)
      × (get_or b (offset + length t) 1 ≡ 0)
      × (take (offset + length t) b ≡ take offset buf ++ t)
unfolding copy_into terminate
copy-terminate buf offset t h =
    let n = offset + length t in
    let copied = take offset buf ++ t ++ drop n buf in
    let size : length copied ≡ length buf = omega (
      arith,
      length-append (take offset buf ++ t) (drop n buf),
      length-append (take offset buf) t,
      length-take offset buf,
      length-drop n buf,
    ) in
    let front : length (take offset buf ++ t) ≡ n =
      omega (arith, length-append (take offset buf) t, length-take offset buf) in
    let fits : leb n (length buf) ≡ true = ground arith in
    let fits' : ltb n (length copied) ≡ true = ground (arith, size) in
    (
      set copied n 0,
      rw (fits, ◌>>=◌, fits') refl,
      length-set copied n 0 ∙ size,
      get_or-set_here copied n 0 1 (omega (arith, size)),
      take-set n copied 0
          ∙ take-append_le n (take offset buf ++ t) (drop n buf) (omega (arith, front))
          ∙ ap (λ m. take m (take offset buf ++ t)) (sym front)
          ∙ take_all (length (take offset buf ++ t)) (take offset buf ++ t) (omega arith),
    )

module _ (junk : ℕ) where
  -- After `sdsMakeRoomFor` the text is the same and there is room for `n` more bytes.
  make_room_for-IsSds :
      (s : Sds) (n : ℕ)
      → IsSds s
      → let r = sds_make_room_for junk s n in
        (length r.buf ≡ s.len + r.free + 1)
        × (r.len ≡ s.len)
        × (n ≤ r.free)
        × (take s.len r.buf ≡ text s)
  unfolding sds_make_room_for realloc
  make_room_for-IsSds s n v = elim (Bool-cases (leb n s.free)) [
    | inl room ↦ rw room (v.allocated, refl, ground arith, refl)
    | inr full ↦
        let more : s.free < n = ground arith in
        let newlen = (s.len + n) * 2 in
        let all : take (newlen + 1) s.buf ≡ s.buf =
          take_all (newlen + 1) s.buf (omega (arith, v.allocated, more)) in
        let size = length-append s.buf (replicate ((newlen + 1) - length s.buf) junk) in
        rw (full, all)
          (
            omega (
              arith,
              size,
              v.allocated,
              more,
              length-replicate ((newlen + 1) - length s.buf) junk,
            ),
            refl,
            omega arith,
            take-append_le s.len s.buf _ (omega (arith, v.allocated)),
          )
  ]

  -- On a well-formed string `sdscatlen` never leaves the allocated bytes, appends to the text, and keeps the length, the free space
  -- and the terminating zero right.
  pub sds_catlen-IsSds :
      (s : Sds) (t : List ℕ)
      → IsSds s
      → (r : Sds) × (sds_catlen junk s t ≡ some r) × IsSds r × (text r ≡ text s ++ t)
  unfolding sds_catlen
  sds_catlen-IsSds s t v =
      let (size, len, room, front) = make_room_for-IsSds s (length t) v in
      let sh = sds_make_room_for junk s (length t) in
      let (b, run, size', zero', text') =
        copy-terminate sh.buf s.len t (omega (arith, size, room)) in
      let (c, copied, ended) = >>=-eq-some (copy_into sh.buf s.len t) _ run in
      (
        record { len = s.len + length t; free = sh.free - length t; buf = b },
        rw (copied, ◌>>=◌, ended) refl,
        record { allocated = omega (arith, size, size', room); terminated = zero' },
        text' ∙ ap (λ w. w ++ t) front,
      )

  -- On a well-formed string `sdscpylen` of bytes that fit the allocated space replaces the text, and leaves
  -- a well-formed string.
  pub sds_cpylen-IsSds :
      (s : Sds) (t : List ℕ)
      → IsSds s
      → length t ≤ s.free + s.len
      → (r : Sds) × (sds_cpylen junk s t ≡ some r) × IsSds r × (text r ≡ t)
  unfolding sds_cpylen
  sds_cpylen-IsSds s t v fits =
      let enough : ltb (s.free + s.len) (length t) ≡ false = ground arith in
      let (b, run, size', zero', text') = copy-terminate s.buf 0 t (omega (arith, v.allocated)) in
      let (c, copied, ended) = >>=-eq-some (copy_into s.buf 0 t) _ run in
      let none' : 0 + length t ≡ length t = omega arith in
      (
        record { len = length t; free = (s.free + s.len) - length t; buf = b },
        rw (enough, copied, ◌>>=◌, sym none', ended) refl,
        record { allocated = omega (arith, v.allocated, size'); terminated = rw none' at zero' },
        rw none' at text',
      )

  -- On a well-formed string `sdscpylen` of bytes that do not fit writes out of bounds where the string's free space alone covers
  -- what is missing: it compares that with the free space, as an appending function would.
  pub sds_cpylen-overflow :
      (s : Sds) (t : List ℕ)
      → IsSds s
      → s.free + s.len < length t
      → length t ≤ (s.free + s.len) + s.free
      → sds_cpylen junk s t ≡ none
  unfolding sds_cpylen sds_make_room_for copy_into terminate
  sds_cpylen-overflow s t v more free =
      let grows : ltb (s.free + s.len) (length t) ≡ true = ground arith in
      let stays : leb (length t - (s.free + s.len)) s.free ≡ true = ground arith in
      elim (Bool-cases (leb (0 + length t) (length s.buf))) [
        | inl fits ↦
            let size : length (t ++ drop (0 + length t) s.buf) ≡ length t = omega (
              arith,
              length-append t (drop (0 + length t) s.buf),
              length-drop (0 + length t) s.buf,
              v.allocated,
              more,
            ) in
            let out : ltb (length t) (length (t ++ drop (0 + length t) s.buf)) ≡ false =
              ground (arith, size) in
            rw (grows, stays, fits, ◌>>=◌, out) refl
        | inr over ↦ rw (grows, stays, over, ◌>>=◌) refl
      ]
