-- ===== src/Redis/ListLaws.antt =====
-- What the list commands do to the database, the change counter and the reply.
use homemade.Prelude.{
  ℕ, zero, suc, ◌+◌, ◌-◌, ◌≤◌, ◌<◌, ◌≡◌, refl, sym, ap, ◌∙◌, ◌||◌, Option, none, some, List, [],
  ◌∷◌, ◌++◌, arith, length, if◌then◌else◌, ◌>>=◌, inl, inr, ◌⊎◌, append_assoc, append-nil,
  Bool-cases, take, drop, length-drop, min, length-take, ltb, leb,
}
use homemade.Prelude.Int.{ℤ, pos, negsuc, IsIndex}
use homemade.Dict.Types.{Entry, value_of}
use homemade.Dict.Ops.{find}
use homemade.Redis.Object.{Bytes, Obj, list, hash_dict_type}
use homemade.Redis.Decimal.{atoi}
use homemade.Redis.Shared
use homemade.Redis.State.{State, db, touch, add_reply, holds, IsOpen, Writes}
use homemade.Redis.Keyspace.{mutate, mutate-Writes, Writes-answered}
use homemade.Redis.Strings.{bulks, number_line, bulk}
use homemade.Redis.Lists.{redis_head, redis_tail}
use homemade.Redis.ListRanges.{
  end_node, lindex_to_positive, range_reply, lrange_list, lrange_command, lrange_found, del_ends,
  ltrim_list, ltrim_command, ltrim_found,
}

-- The elements of a list from one position to another, both included.
abbrev pub window : List Bytes → ℕ → ℕ → List Bytes
window xs start end = take (suc end - start) (drop start xs)

-- A multi-bulk reply; the empty one is the number 0.
abbrev pub multi_bulk : List Bytes → List Bytes
multi_bulk [] = Shared.zero ∷ []
multi_bulk (x ∷ xs) = number_line (length (x ∷ xs)) ∷ bulks (x ∷ xs)

entry_of :
    {V : Type 0} (x : Option (Entry Bytes V)) (o : V)
    → value_of x ≡ some o
    → (e : Entry Bytes V) × (x ≡ some e)
entry_of none o h = cc
entry_of (some e) o h = (e, refl)

-- A change in place, of a key of which only the object is known.
pub mutate-Writes_holding :
    (k : Bytes) (s : State) (o o' : Obj)
    → IsOpen s
    → holds s k ≡ some o
    → Writes s (mutate k o' s) k (some o')
mutate-Writes_holding k s o o' opened there =
    let (e, present) = entry_of (find hash_dict_type (db s) k) o there in
    mutate-Writes k s opened o' e present

take-length : (n : ℕ) (xs : List Bytes) → length xs ≤ n → take n xs ≡ xs
take-length zero [] h = refl
take-length zero (x ∷ xs) h = absurd (omega arith)
take-length (suc n) [] h = refl
take-length (suc n) (x ∷ xs) h = ap (λ ys. x ∷ ys) (take-length n xs (omega arith))

take-take : (m n : ℕ) (xs : List Bytes) → m ≤ n → take m (take n xs) ≡ take m xs
take-take zero n xs h = refl
take-take (suc m) zero xs h = absurd (omega arith)
take-take (suc m) (suc n) [] h = refl
take-take (suc m) (suc n) (x ∷ xs) h = ap (λ ys. x ∷ ys) (take-take m n xs (omega arith))

drop-length : (xs : List Bytes) → drop (length xs) xs ≡ []
drop-length [] = refl
drop-length (x ∷ xs) = drop-length xs

del_ends-head :
    (n : ℕ) (xs : List Bytes) → n ≤ length xs → del_ends redis_head n xs ≡ some (drop n xs)
unfolding del_ends end_node
del_ends-head zero xs h = refl
del_ends-head (suc n) [] h = absurd (omega arith)
del_ends-head (suc n) (x ∷ xs) h = del_ends-head n xs (omega arith)

end_node-tail :
    (x : Bytes) (xs : List Bytes)
    → (y : Bytes) × (end_node redis_tail (x ∷ xs) ≡ some (y, take (length xs) (x ∷ xs)))
unfolding end_node
end_node-tail x [] = (x, refl)
end_node-tail x (y ∷ ys) = let (z, e) = end_node-tail y ys in (z, rw e refl)

del_ends-tail :
    (n : ℕ) (xs : List Bytes)
    → n ≤ length xs
    → del_ends redis_tail n xs ≡ some (take (length xs - n) xs)
unfolding del_ends
del_ends-tail zero xs h = sym (ap some (take-length (length xs - 0) xs (omega arith)))
del_ends-tail (suc n) [] h = absurd (omega arith)
del_ends-tail (suc n) (x ∷ xs) h =
    let (y, e) = end_node-tail x xs in
    let shorter : length (take (length xs) (x ∷ xs)) ≡ length xs =
      omega (arith, length-take (length xs) (x ∷ xs)) in
    let IH = del_ends-tail n (take (length xs) (x ∷ xs)) (omega (arith, shorter)) in
    rw (e, ◌>>=◌, IH, shorter)
      (ap some (
        take-take (length xs - n) (length xs) (x ∷ xs) (omega arith)
        ∙ ap (λ i. take i (x ∷ xs)) (omega arith)))

take-min :
    (m n : ℕ) (xs : List Bytes) → min m (length xs) ≡ min n (length xs) → take m xs ≡ take n xs
take-min zero zero xs h = refl
take-min zero (suc n) [] h = refl
take-min zero (suc n) (x ∷ xs) h = absurd (omega arith)
take-min (suc m) zero [] h = refl
take-min (suc m) zero (x ∷ xs) h = absurd (omega arith)
take-min (suc m) (suc n) [] h = refl
take-min (suc m) (suc n) (x ∷ xs) h = ap (λ ys. x ∷ ys) (take-min m n xs (omega arith))

-- The two loops of LTRIM never meet an empty list, and leave the window.
ltrim_list-window :
    (xs : List Bytes) (start end : ℕ) → ltrim_list xs start end ≡ some (window xs start end)
unfolding ltrim_list
ltrim_list-window xs start end = elim (Bool-cases (ltb end start || leb (length xs) start)) [
  | inl out ↦
      let start' : end < start ⊎ length xs ≤ start = ground arith in
      rw (out, del_ends-head (length xs) xs (omega arith), ◌>>=◌, drop-length xs)
        (ap some (
          take-min 0 (suc end - start) (drop start xs)
            (omega (arith, start', length-drop start xs))))
  | inr within ↦
      let start' : start ≤ end × start < length xs = ground arith in
      let left = length-drop start xs in
      rw
        (
          within,
          del_ends-head start xs (omega (arith, start')),
          ◌>>=◌,
          del_ends-tail ((length xs - end) - 1) (drop start xs) (omega (arith, left, start')),
        )
        (ap some (take-min _ _ (drop start xs) (omega (arith, left, start'))))
]

-- The reply loop of LRANGE never meets the end of the list, and sends the elements in bulk.
range_reply-bulks :
    (n : ℕ) (xs : List Bytes) (st : State)
    → n ≤ length xs
    → range_reply n xs st ≡ some (record st { reply = st.reply ++ bulks (take n xs) })
unfolding range_reply
range_reply-bulks zero xs st h = rw (append-nil st.reply)
range_reply-bulks (suc n) [] st h = absurd (omega arith)
range_reply-bulks (suc n) (x ∷ xs) st h =
    range_reply-bulks n xs (bulk x st) (omega arith)
    ∙ ap (λ r. some (record st { reply = r })) (simp append_assoc)

lindex_to_positive-IsIndex :
    (len : ℕ) (z : ℤ) (k : ℕ) → IsIndex len z k → lindex_to_positive z len ≡ k
unfolding lindex_to_positive
lindex_to_positive-IsIndex len (pos i) k h = sym h
lindex_to_positive-IsIndex len (negsuc i) k h = omega (arith, h)

-- Where the selected database is a valid table, LTRIM of a key that holds a list leaves the elements
-- from `start` to `end`, both included. A negative index counts from the end, -1 being the last element, and
-- one in front of the first element is 0. Neither loop runs out of elements, for any two indices; the other
-- keys and databases stay, one change is counted and the reply is +OK.
pub ltrim_command-Writes :
    (k start end : Bytes) (i j : ℕ) (xs : List Bytes) (s : State)
    → IsOpen s
    → holds s k ≡ some (list xs)
    → IsIndex (length xs) (atoi start) i
    → IsIndex (length xs) (atoi end) j
    → (t : State) × (ltrim_command k start end s ≡ some t)
      × Writes s t k (some (list (window xs i j)))
      × (t.dirty ≡ s.dirty + 1)
      × (t.reply ≡ s.reply ++ Shared.ok ∷ [])
unfolding ltrim_command ltrim_found mutate
ltrim_command-Writes k start end i j xs s opened there from upto =
    let first = lindex_to_positive-IsIndex (length xs) (atoi start) i from in
    let last = lindex_to_positive-IsIndex (length xs) (atoi end) j upto in
    (
      touch (add_reply Shared.ok (mutate k (list (window xs i j)) s)),
      rw (there, first, last, ltrim_list-window xs i j, ◌>>=◌),
      Writes-answered _ _ (mutate-Writes_holding k s (list xs) (list (window xs i j)) opened there),
      refl,
      refl,
    )

multi_bulk_of :
    (w : List Bytes) (n : ℕ) → length w ≡ n → 0 < n → multi_bulk w ≡ number_line n ∷ bulks w
multi_bulk_of [] n e h = absurd (omega arith)
multi_bulk_of (x ∷ w) n e h = ap (λ m. number_line m ∷ bulks (x ∷ w)) e

lrange_list-window :
    (xs : List Bytes) (start end : ℕ) (st : State)
    → lrange_list xs start end st
      ≡ some (record st { reply = st.reply ++ multi_bulk (window xs start end) })
unfolding lrange_list
lrange_list-window xs start end st = elim (Bool-cases (ltb end start || leb (length xs) start)) [
  | inl out ↦
      let start' : end < start ⊎ length xs ≤ start = ground arith in
      let nothing : window xs start end ≡ [] =
        take-min (suc end - start) 0 (drop start xs)
          (omega (arith, start', length-drop start xs)) in
      rw (out, nothing) refl
  | inr within ↦
      let start' : start ≤ end × start < length xs = ground arith in
      let left = length-drop start xs in
      let last = if leb (length xs) end then length xs - 1 else end in
      let n = (last - start) + 1 in
      let last' : min n (length (drop start xs)) ≡ min (suc end - start) (length (drop start xs)) =
        ground (arith, left, start') in
      let fits : n ≤ length (drop start xs) = ground (arith, left, start') in
      let same : take n (drop start xs) ≡ window xs start end =
        take-min n (suc end - start) (drop start xs) last' in
      let size : length (window xs start end) ≡ n =
        omega (arith, length-take (suc end - start) (drop start xs), last', fits) in
      rw
        (
          within,
          range_reply-bulks n (drop start xs) (add_reply (number_line n) st) fits,
          same,
          multi_bulk_of (window xs start end) n size (omega arith),
        )
        (ap (λ r. some (record st { reply = r })) (simp append_assoc))
]

-- LRANGE of a key that holds a list sends the elements from `start` to `end`, both included, as one
-- multi-bulk reply: their number and each in bulk, or the number 0 where there are none. A negative index
-- counts from the end, -1 being the last element, and one in front of the first element is 0. The reply
-- loop never meets the end of the list, and nothing else changes.
pub lrange_command-window :
    (k start end : Bytes) (i j : ℕ) (xs : List Bytes) (s : State)
    → holds s k ≡ some (list xs)
    → IsIndex (length xs) (atoi start) i
    → IsIndex (length xs) (atoi end) j
    → lrange_command k start end s
      ≡ some (record s { reply = s.reply ++ multi_bulk (window xs i j) })
unfolding lrange_command lrange_found
lrange_command-window k start end i j xs s there from upto =
    let first = lindex_to_positive-IsIndex (length xs) (atoi start) i from in
    let last = lindex_to_positive-IsIndex (length xs) (atoi end) j upto in
    rw (there, first, last) (lrange_list-window xs i j s)
