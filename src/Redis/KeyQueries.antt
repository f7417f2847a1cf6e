-- ===== src/Redis/KeyQueries.antt =====
-- `keysCommand` and `randomkeyCommand` of redis/src/redis.c. `none` is a run that does not end, or reads
-- behind the end of the pattern or of a key.
use homemade.Prelude.{
  ℕ, suc, ◌+◌, ◌-◌, ◌<◌, ◌≡◌, refl, true, false, ◌&&◌, Option, none, some, List, [], ◌∷◌, ◌++◌,
  arith, if◌then◌else◌, length, length-append, get_or, ◌>>=◌, ◌==◌, append_assoc, append-nil,
  Bool-cases, inl, inr,
}
use mathlib.Core.List.{flatten}
use homemade.Dict.Types.{Entry}
use homemade.Dict.Ops.{get_random_key}
use homemade.Dict.Iterator.{visit, get_iterator, visit_all_but_last}
use homemade.Redis.Object.{Bytes, Obj, codes, hash_dict_type}
use homemade.Redis.Shared
use homemade.Redis.State.{State, db, add_reply, IsOpen}
use homemade.Redis.Strings.{number_line}
use homemade.Redis.Glob.{Glob, answer, overrun, starved, stringmatchlen}
use homemade.Redis.Glob.Plain.{ended, matches, IsPlain, stringmatchlen-matches}

-- `randomkeyCommand`; `random` is what the calls of `random()` answer
unfoldable pub random_reply : State → Option (Entry Bytes Obj) → State
random_reply st (some e) = add_reply Shared.crlf (add_reply e.key st)
random_reply st none = add_reply Shared.crlf st

unfoldable pub randomkey_command : List ℕ → State → Option State
unfolding random_reply
randomkey_command random st =
    get_random_key hash_dict_type random (db st) >>= λ e. some (random_reply st e)

-- The test of `keysCommand` on a key, on enough fuel for the pattern.
unfoldable pub key_matches : Bytes → Bytes → Glob
key_matches pattern key =
    let run = stringmatchlen (length pattern + 1) false (ended pattern) (ended key) in
    if (get_or (ended pattern) 0 0 == 42) && (get_or (ended pattern) 1 0 == 0)
    then answer true
    else run

-- What the loop has queued, `numkeys` and `keyslen`.
pub record Found : Type 0 where
  pub queued : List Bytes
  pub numkeys : ℕ
  pub keyslen : ℕ

unfoldable pub keys_add : Bytes → Found → Found
keys_add key f = record {
  queued = f.queued ++ (if f.numkeys == 0 then [] else codes " " ∷ []) ++ key ∷ [];
  numkeys = f.numkeys + 1;
  keyslen = f.keyslen + length key;
}

unfoldable pub keys_step : Glob → Bytes → Found → Option Found
unfolding keys_add
keys_step (answer b) key f = some (if b then keys_add key f else f)
keys_step overrun key f = none
keys_step starved key f = none

-- The loop over the entries that `dictNext` delivers.
unfoldable pub keys_loop : Bytes → List (Entry Bytes Obj) → Found → Option Found
unfolding key_matches keys_step
keys_loop pattern [] f = some f
keys_loop pattern (e ∷ es) f =
    keys_step (key_matches pattern e.key) e.key f >>= λ g. keys_loop pattern es g

-- The length object, which is queued first and set last, then what the loop queued. The lengths of the
-- keys add up below 2^31.
unfoldable pub keys_reply : State → Found → State
keys_reply st f = record st {
  reply =
      st.reply
      ++ number_line (f.keyslen + (if f.numkeys == 0 then 0 else f.numkeys - 1)) ∷ []
      ++ f.queued
      ++ Shared.crlf ∷ [];
}

-- `keysCommand`; the rounds and the fuel of the iterator are those of the table's own counts
unfoldable pub keys_command : Bytes → State → Option State
unfolding keys_loop keys_reply
keys_command pattern st = visit ((db st).used + 1) ((db st).size + 1) (db st) get_iterator >>= λ es.
    keys_loop pattern es (record { queued = []; numkeys = 0; keyslen = 0 }) >>= λ f.
    some (keys_reply st f)

-- The keys that match, in the order of the entries.
abbrev pub matching : Bytes → List (Entry Bytes Obj) → List Bytes
matching pattern [] = []
matching pattern (e ∷ es) =
    let rest = matching pattern es in if matches pattern e.key then e.key ∷ rest else rest

-- Each after a space.
abbrev pub spaced : List Bytes → List Bytes
spaced [] = []
spaced (k ∷ ks) = codes " " ∷ k ∷ spaced ks

-- With a space between two.
abbrev pub joined : List Bytes → List Bytes
joined [] = []
joined (k ∷ ks) = k ∷ spaced ks

key_matches-matches :
    (pattern key : Bytes) → IsPlain pattern → key_matches pattern key ≡ answer (matches pattern key)
unfolding key_matches
key_matches-matches [] key plain = stringmatchlen-matches 1 [] key plain (omega arith)
key_matches-matches (c ∷ []) key plain =
    ground (arith, stringmatchlen-matches 2 (c ∷ []) key plain (omega arith))
key_matches-matches (c ∷ d ∷ p) key plain =
    ground
      (arith, plain.2.0, stringmatchlen-matches (length p + 3) (c ∷ d ∷ p) key plain (omega arith))

-- The loop body's work for each of some keys.
abbrev keys_add_all : List Bytes → Found → Found
unfolding keys_add
keys_add_all [] f = f
keys_add_all (k ∷ ks) f = keys_add_all ks (keys_add k f)

keys_loop-matching :
    (pattern : Bytes) (es : List (Entry Bytes Obj)) (f : Found)
    → IsPlain pattern
    → keys_loop pattern es f ≡ some (keys_add_all (matching pattern es) f)
unfolding keys_loop keys_step
keys_loop-matching pattern [] f plain = refl
keys_loop-matching pattern (e ∷ es) f plain = elim (Bool-cases (matches pattern e.key)) [
  | inl hit ↦
      rw (key_matches-matches pattern e.key plain, hit, ◌>>=◌)
        (keys_loop-matching pattern es (keys_add e.key f) plain)
  | inr miss ↦
      rw (key_matches-matches pattern e.key plain, miss, ◌>>=◌)
        (keys_loop-matching pattern es f plain)
]

keys_add_all-spaced :
    (ks : List Bytes) (f : Found)
    → 0 < f.numkeys
    → keys_add_all ks f ≡ record {
      queued = f.queued ++ spaced ks;
      numkeys = f.numkeys + length ks;
      keyslen = f.keyslen + length (flatten ks);
    }
unfolding flatten keys_add
keys_add_all-spaced [] f h =
    let n : f.numkeys + 0 ≡ f.numkeys = omega arith in
    let l : f.keyslen + 0 ≡ f.keyslen = omega arith in rw (append-nil f.queued, n, l) refl
keys_add_all-spaced (k ∷ ks) f h =
    let old : (f.numkeys == 0) ≡ false = ground arith in
    let n : f.numkeys + 1 + length ks ≡ f.numkeys + suc (length ks) = omega arith in
    let l : f.keyslen + length k + length (flatten ks) ≡ f.keyslen + length (k ++ flatten ks) =
      omega (arith, length-append k (flatten ks)) in
    let q : f.queued ++ codes " " ∷ [] ++ k ∷ [] ++ spaced ks
        ≡ f.queued ++ codes " " ∷ k ∷ spaced ks =
      simp append_assoc in
    rw (keys_add_all-spaced ks (keys_add k f) (omega arith), old, n, l, q) refl

length-spaced : (ks : List Bytes) → length (flatten (spaced ks)) ≡ length ks + length (flatten ks)
unfolding flatten
length-spaced [] = refl
length-spaced (k ∷ ks) =
    omega
      (arith, length-append k (flatten (spaced ks)), length-append k (flatten ks), length-spaced ks)

keys_reply-joined :
    (st : State) (ks : List Bytes)
    → keys_reply st (keys_add_all ks (record { queued = []; numkeys = 0; keyslen = 0 }))
      ≡ record st {
        reply =
            st.reply
            ++ number_line (length (flatten (joined ks))) ∷ []
            ++ joined ks
            ++ Shared.crlf ∷ [];
      }
unfolding keys_reply flatten keys_add
keys_reply-joined st [] = refl
keys_reply-joined st (k ∷ ks) =
    let first = keys_add k (record { queued = []; numkeys = 0; keyslen = 0 }) in
    let many : (1 + length ks == 0) ≡ false = ground arith in
    let l : 0 + length k + length (flatten ks) + (1 + length ks - 1)
        ≡ length (k ++ flatten (spaced ks)) =
      omega (arith, length-append k (flatten (spaced ks)), length-spaced ks) in
    rw (keys_add_all-spaced ks first (omega arith), many, l) refl

-- On an open database whose table has slots, `KEYS` with a pattern of no `[` and no zero byte ends and
-- stays within its strings. Its reply is one length line, the keys that match among the entries of all
-- slots but the last, in their order and with a space between two, and a line end; the length line gives
-- the number of bytes of the keys and spaces. No other part of the server changes.
pub keys_command-matching :
    (pattern : Bytes) (st : State)
    → IsOpen st
    → 0 < (db st).size
    → IsPlain pattern
    → (es : List (Entry Bytes Obj)) × (flatten (db st).table
        ≡ es ++ get_or (db st).table (db st).sizemask [])
      × (keys_command pattern st
          ≡ some (record st {
            reply =
                st.reply
                ++ number_line (length (flatten (joined (matching pattern es)))) ∷ []
                ++ joined (matching pattern es)
                ++ Shared.crlf ∷ [];
          }))
unfolding keys_command
keys_command-matching pattern st opened slots plain =
    let (es, seen, split) = visit_all_but_last hash_dict_type (db st) opened.valid slots in
    let looped =
      keys_loop-matching pattern es (record { queued = []; numkeys = 0; keyslen = 0 }) plain in
    (es, split, rw (seen, looped, ◌>>=◌, keys_reply-joined st (matching pattern es)) refl)
