-- ===== src/Sds/Trim.antt =====
-- What `sdsnewlen` and `sdstrim` of redis/src/sds.c leave.
use homemade.Prelude.{
  ◌>>=◌, ℕ, zero, suc, ◌+◌, ◌-◌, ◌≤◌, ◌<◌, ◌≡◌, refl, sym, ap, ◌∙◌, true, false, some, List, [],
  ◌∷◌, ◌++◌, arith, length, leb, ltb, ◌==◌, if◌then◌else◌, take, drop, get_or, set, length-append,
  length-set, length-take, length-drop, get_or-length_append,
}
use homemade.Sds.Ops.{Sds, terminate, strlen, count_front, count_back, sds_trim, sds_newlen}
use homemade.Sds.Laws.{IsSds, text, take-append_le, take-take_le, take-set, get_or-set_here}

pub strlen-length : (s : List ℕ) → strlen s ≤ length s
unfolding strlen
strlen-length [] = omega arith
strlen-length (c ∷ s) = ground (arith, strlen-length s)

pub sds_newlen-IsSds :
    (init : List ℕ) (n : ℕ)
    → n ≤ length init
    → (s : Sds) × (sds_newlen init n ≡ some s) × IsSds s × (text s ≡ take n init)
unfolding sds_newlen
sds_newlen-IsSds init n fits =
    let there : leb n (length init) ≡ true = ground arith in
    let size : length (take n init) ≡ n = omega (arith, length-take n init) in
    (
      record { len = n; free = 0; buf = take n init ++ 0 ∷ [] },
      rw there refl,
      record {
        allocated = omega (arith, length-append (take n init) (0 ∷ []), size);
        terminated =
            ap (λ i. get_or (take n init ++ 0 ∷ []) i 1) (sym size)
            ∙ get_or-length_append (take n init) 0 1 [];
      },
      take-append_le n (take n init) (0 ∷ []) (omega (arith, size))
          ∙ take-take_le n n init (omega arith),
    )

-- A zero behind the first `n` bytes.
terminate-take :
    (buf : List ℕ) (n : ℕ)
    → n < length buf
    → (terminate buf n ≡ some (set buf n 0))
      × (get_or (set buf n 0) n 1 ≡ 0)
      × (take n (set buf n 0) ≡ take n buf)
unfolding terminate
terminate-take buf n h =
    let fits : ltb n (length buf) ≡ true = ground arith in
    (rw fits refl, get_or-set_here buf n 0 1 h, take-set n buf 0)

take_nil : (k : ℕ) → ◌≡◌ {A = List ℕ} [] (take k [])
take_nil zero = refl
take_nil (suc k) = refl

drop-take : (k n : ℕ) (xs : List ℕ) → drop k (take n xs) ≡ take (n - k) (drop k xs)
drop-take zero n xs = let e : n - 0 ≡ n = omega arith in rw e refl
drop-take (suc k) zero xs = let e : 0 - suc k ≡ 0 = omega arith in rw e refl
drop-take (suc k) (suc n) [] = take_nil (suc n - suc k)
drop-take (suc k) (suc n) (x ∷ xs) =
    let e : suc n - suc k ≡ n - k = omega arith in rw e (drop-take k n xs)

count_front-le : (cset s : List ℕ) → count_front cset s ≤ length s
unfolding count_front
count_front-le cset [] = omega arith
count_front-le cset (c ∷ s) = ground (arith, count_front-le cset s)

-- `memmove` to the front, where the text does not begin there already.
moved-take :
    (buf : List ℕ) (sp len : ℕ)
    → sp + len < length buf
    → let m = if sp == 0 then buf else take len (drop sp buf) ++ drop len buf in
      (length m ≡ length buf) × (take len m ≡ take len (drop sp buf))
moved-take buf zero len h = (refl, refl)
moved-take buf (suc k) len h =
    let sp = suc k in
    let other : (suc k == 0) ≡ false = ground arith in
    let kept : length (take len (drop sp buf)) ≡ len =
      omega (arith, length-take len (drop sp buf), length-drop sp buf) in
    rw other (
      omega
          (arith, length-append (take len (drop sp buf)) (drop len buf), kept, length-drop len buf),
      take-append_le len (take len (drop sp buf)) (drop len buf) (omega (arith, kept))
          ∙ take-take_le len len (drop sp buf) (omega arith),
    )

-- What `sdstrim` and `sdsrange` do last: `len` bytes from `sp` on move to the front, with a zero behind them.
pub cut-IsSds :
    (s : Sds) (sp len : ℕ)
    → IsSds s
    → sp + len ≤ s.len
    → let m = if sp == 0 then s.buf else take len (drop sp s.buf) ++ drop len s.buf in
      (r : Sds) × ((terminate m len >>= λ b.
      some (record { len = len; free = s.free + (s.len - len); buf = b }))
        ≡ some r)
      × IsSds r
      × (text r ≡ take len (drop sp (text s)))
cut-IsSds s sp len v within =
    let (same, front) = moved-take s.buf sp len (omega (arith, within, v.allocated)) in
    let m = if sp == 0 then s.buf else take len (drop sp s.buf) ++ drop len s.buf in
    let (run, ended, kept) = terminate-take m len (omega (arith, same, within, v.allocated)) in
    (
      record { len = len; free = s.free + (s.len - len); buf = set m len 0 },
      rw run refl,
      record {
        allocated = omega (arith, length-set m len 0, same, v.allocated, within);
        terminated = ended;
      },
      kept
          ∙ front
          ∙ sym (
              ap (take len) (drop-take sp s.len s.buf)
              ∙ take-take_le len (s.len - sp) (drop sp s.buf) (omega (arith, within))),
    )

-- On a well-formed string `sdstrim` stays within its bytes and leaves a well-formed string, whose text is
-- that of the old one without the bytes of the set in front, and without as many bytes behind as its
-- backward loop counts.
pub sds_trim-IsSds :
    (cset : List ℕ) (s : Sds)
    → IsSds s
    → (r : Sds) × (sds_trim cset s ≡ some r)
      × IsSds r
      × (text r
          ≡ take
              (s.len - (count_front cset (text s) + count_back cset (text s)))
              (drop (count_front cset (text s)) (text s)))
unfolding sds_trim
sds_trim-IsSds cset s v =
    let sp = count_front cset (text s) in
    let len = s.len - (sp + count_back cset (text s)) in
    let size : length (text s) ≡ s.len = omega (arith, length-take s.len s.buf, v.allocated) in
    cut-IsSds s sp len v (omega (arith, count_front-le cset (text s), size))
