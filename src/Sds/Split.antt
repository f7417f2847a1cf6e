-- ===== src/Sds/Split.antt =====
-- `sdssplitlen` of redis/src/sds.c. A token is the bytes that `sdsnewlen` copies; the growth of the array
-- of tokens is not modelled.
use homemade.Prelude.{
  ℕ, zero, suc, ◌+◌, ◌-◌, Bool, true, false, ◌&&◌, List, [], ◌∷◌, length, if◌then◌else◌, leb, ◌==◌,
  take, drop,
}

-- `memcmp(s, sep, seplen) == 0`, where `s` has `seplen` bytes left
unfoldable pub starts_with : List ℕ → List ℕ → Bool
starts_with [] s = true
starts_with (c ∷ sep) [] = false
starts_with (c ∷ sep) (x ∷ s) = (x == c) && starts_with sep s

-- `s + start` to `s + end`
abbrev pub slice : List ℕ → ℕ → ℕ → List ℕ
slice s start end = take (end - start) (drop start s)

-- The loop over `i`, on fuel, and the last token; `i < len - (seplen - 1)` is `i + seplen <= len`.
unfoldable pub split_loop : ℕ → List ℕ → List ℕ → ℕ → ℕ → List (List ℕ)
unfolding starts_with
split_loop zero s sep i start = drop start s ∷ []
split_loop (suc fuel) s sep i start =
    let found = slice s start i ∷ split_loop fuel s sep (i + length sep) (i + length sep) in
    let onward = split_loop fuel s sep (i + 1) start in
    if leb (i + length sep) (length s)
    then if starts_with sep (drop i s) then found else onward
    else drop start s ∷ []

-- `sdssplitlen` with a separator that is not empty; a round moves on by a byte or more. The comment of the C
-- function has NULL for a string of length 0; its code tests for a negative length, and gives one piece.
unfoldable pub sds_splitlen : List ℕ → List ℕ → List (List ℕ)
unfolding split_loop
sds_splitlen s sep = split_loop (length s + 1) s sep 0 0
