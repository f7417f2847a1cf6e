-- ===== src/Sds/Ops.antt =====
-- The operations of redis/src/sds.c. `none` is an access out of the allocated bytes. Lengths are not
-- wrapped, since a string fits the memory. `sdsOomAbort` is not modelled: `zmalloc` gives memory.
use homemade.Prelude.{
  ℕ, suc, ◌+◌, ◌-◌, ◌*◌, Bool, ◌&&◌, ◌||◌, Option, none, some, List, [], ◌∷◌, ◌++◌, map, length,
  if◌then◌else◌, ◌>>=◌, ltb, leb, ◌==◌, take, drop, set, replicate,
}
use mathlib.Core.List.{reverse}
use homemade.Prelude.Int.{ℤ, pos, negsuc}

-- `struct sdshdr`; `buf` is all that is allocated for it
pub record Sds : Type 0 where
  pub len : ℕ
  pub free : ℕ
  pub buf : List ℕ

-- `memcpy(buf + offset, bytes, length bytes)`
unfoldable pub copy_into : List ℕ → ℕ → List ℕ → Option (List ℕ)
copy_into buf offset bytes =
    if leb (offset + length bytes) (length buf)
    then some (take offset buf ++ bytes ++ drop (offset + length bytes) buf)
    else none

-- `buf[i] = '\0'`
unfoldable pub terminate : List ℕ → ℕ → Option (List ℕ)
terminate buf i = if ltb i (length buf) then some (set buf i 0) else none

-- `sdsnewlen` with bytes to copy, at least `initlen` of them
unfoldable pub sds_newlen : List ℕ → ℕ → Option Sds
sds_newlen init initlen =
    if leb initlen (length init)
    then some (record { len = initlen; free = 0; buf = take initlen init ++ 0 ∷ [] })
    else none

-- `sdsnewlen` of NULL
unfoldable pub sds_newlen_null : ℕ → Sds
sds_newlen_null initlen = record { len = initlen; free = 0; buf = replicate initlen 0 ++ 0 ∷ [] }

-- `strlen`: the bytes before the first zero
unfoldable pub strlen : List ℕ → ℕ
strlen [] = 0
strlen (c ∷ s) = let rest = strlen s in if c == 0 then 0 else suc rest

-- `sdsempty`
unfoldable pub sds_empty : Option Sds
unfolding sds_newlen
sds_empty = sds_newlen (0 ∷ []) 0

-- `sdsdup`
unfoldable pub sds_dup : Sds → Option Sds
unfolding sds_newlen
sds_dup s = sds_newlen s.buf s.len

-- `sdsupdatelen`
unfoldable pub sds_updatelen : Sds → Sds
unfolding strlen
sds_updatelen s =
    let reallen = strlen s.buf in record s { len = reallen; free = s.free + (s.len - reallen) }

-- `zrealloc` fills what it adds with bytes that the program cannot rely on: `junk` stands for them.
module _ (junk : ℕ) where
  unfoldable pub realloc : List ℕ → ℕ → List ℕ
  realloc buf n = take n buf ++ replicate (n - length buf) junk

  -- `sdsMakeRoomFor`
  unfoldable pub sds_make_room_for : Sds → ℕ → Sds
  unfolding realloc
  sds_make_room_for s addlen =
      let newlen = (s.len + addlen) * 2 in
      if leb addlen s.free
      then s
      else record s { free = newlen - s.len; buf = realloc s.buf (newlen + 1) }

  -- `sdscatlen`
  unfoldable pub sds_catlen : Sds → List ℕ → Option Sds
  unfolding sds_make_room_for copy_into terminate
  sds_catlen s t =
      let curlen = s.len in
      let sh = sds_make_room_for s (length t) in
      copy_into sh.buf curlen t >>= λ b. terminate b (curlen + length t) >>= λ b'.
      some (record { len = curlen + length t; free = sh.free - length t; buf = b' })

  -- `sdscpylen`: it asks for `len - totlen` more where only `free` is compared with that
  unfoldable pub sds_cpylen : Sds → List ℕ → Option Sds
  unfolding sds_make_room_for copy_into terminate
  sds_cpylen s t =
      let totlen = s.free + s.len in
      let sh = if ltb totlen (length t) then sds_make_room_for s (length t - totlen) else s in
      copy_into sh.buf 0 t >>= λ b. terminate b (length t) >>= λ b'.
      some (record { len = length t; free = (sh.free + sh.len) - length t; buf = b' })

-- `sdsrange`, from where `start` and `end` are known not to be negative
unfoldable pub range_from : Sds → ℕ → ℕ → Option Sds
unfolding terminate
range_from s start end =
    let newlen = if ltb end start then 0 else (end - start) + 1 in
    let start' = if leb s.len start then s.len - 1 else start in
    let end' = if leb s.len end then s.len - 1 else end in
    let clipped = if ltb end' start' then 0 else (end' - start') + 1 in
    let from = if newlen == 0 then 0 else start' in
    let kept = if newlen == 0 then 0 else clipped in
    let moved = if from == 0 then s.buf else take kept (drop from s.buf) ++ drop kept s.buf in
    terminate moved kept >>= λ b.
    some (record { len = kept; free = s.free + (s.len - kept); buf = b })

-- An index of `sdsrange`: a negative one counts from the end and stops at 0.
unfoldable pub to_offset : ℤ → ℕ → ℕ
to_offset (pos i) len = i
to_offset (negsuc i) len = len - suc i

-- `sdsrange`
unfoldable pub sds_range : Sds → ℤ → ℤ → Option Sds
unfolding range_from to_offset
sds_range s start end =
    if s.len == 0 then some s else range_from s (to_offset start s.len) (to_offset end s.len)

-- `strchr(cset, c) != NULL`, which finds the terminating zero, too
unfoldable pub in_set : List ℕ → ℕ → Bool
in_set [] c = c == 0
in_set (d ∷ cset) c = (d == c) || in_set cset c

-- The first loop of `sdstrim`: how many bytes `sp` moves on.
unfoldable pub count_front : List ℕ → List ℕ → ℕ
unfolding in_set
count_front cset [] = 0
count_front cset (c ∷ s) = let rest = count_front cset s in if in_set cset c then suc rest else 0

-- The second loop: how many bytes `ep` moves back. It stops before the first byte of the string.
unfoldable pub count_back : List ℕ → List ℕ → ℕ
unfolding count_front
count_back cset [] = 0
count_back cset (c ∷ s) = count_front cset (reverse s)

-- `sdstrim`
unfoldable pub sds_trim : List ℕ → Sds → Option Sds
unfolding count_back terminate
sds_trim cset s =
    let text = take s.len s.buf in
    let sp = count_front cset text in
    let back = count_back cset text in
    let len = s.len - (sp + back) in
    let moved = if sp == 0 then s.buf else take len (drop sp s.buf) ++ drop len s.buf in
    terminate moved len >>= λ b. some (record { len = len; free = s.free + (s.len - len); buf = b })

-- `tolower` and `toupper` of ASCII
abbrev pub tolower : ℕ → ℕ
tolower c = if leb 65 c && leb c 90 then c + 32 else c

abbrev pub toupper : ℕ → ℕ
toupper c = if leb 97 c && leb c 122 then c - 32 else c

-- `sdstolower`
unfoldable pub sds_tolower : Sds → Sds
sds_tolower s = record s { buf = map tolower (take s.len s.buf) ++ drop s.len s.buf }

-- `sdstoupper`
unfoldable pub sds_toupper : Sds → Sds
sds_toupper s = record s { buf = map toupper (take s.len s.buf) ++ drop s.len s.buf }
