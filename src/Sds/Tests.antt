-- ===== src/Sds/Tests.antt =====
-- Runs of redis/src/sds.c and its theorems at concrete strings.
use homemade.Prelude.{ℕ, ◌≡◌, refl, Option, none, some, List, [], ◌∷◌}
use homemade.Prelude.Int.{pos, negsuc}
use homemade.Sds.Ops.{
  Sds, sds_range, sds_trim, terminate, range_from, to_offset, in_set, count_front, count_back,
  sds_newlen, strlen,
}
use homemade.Sds.Split.{sds_splitlen}
use homemade.Sds.SplitLaws.{sds_splitlen-pieces}
use homemade.Sds.Laws.{text, IsSds}
use homemade.Sds.Range.{sds_range-IsSds}
use homemade.Sds.PrintfLaws.{sds_catprintf-IsSds, NoZero}
use homemade.Sds.Printf.{sds_new, sds_catprintf}
use homemade.Prelude.{replicate, zero, suc}

-- "abc" with two bytes to spare
abbrev abc : Sds
abc = record { len = 3; free = 2; buf = 97 ∷ 98 ∷ 99 ∷ 0 ∷ 7 ∷ 7 ∷ [] }

abc-IsSds : IsSds abc
abc-IsSds = record { allocated = refl; terminated = refl }

abbrev text_of : Option Sds → List ℕ
text_of none = []
text_of (some s) = text s

range_run : text_of (sds_range abc (pos 1) (negsuc 0)) ≡ 98 ∷ 99 ∷ []
unfolding sds_range range_from to_offset terminate
range_run = refl

trim_run : text_of (sds_trim (97 ∷ 99 ∷ []) abc) ≡ 98 ∷ []
unfolding sds_trim count_back count_front in_set terminate
trim_run = refl

-- A text that fits the buffer of 32 bytes only at the second round.
abbrev dots : List ℕ
dots = replicate 31 46

NoZero-replicate : (n : ℕ) → NoZero (replicate n 46)
NoZero-replicate zero = tt
NoZero-replicate (suc n) = (refl, NoZero-replicate n)

NoZero-dots : NoZero dots
NoZero-dots = NoZero-replicate 31

sds_catprintf-IsSds_example :
    (r : Sds) × (sds_catprintf 7 abc dots ≡ some r) × IsSds r × (text r ≡ 97 ∷ 98 ∷ 99 ∷ dots)
sds_catprintf-IsSds_example = sds_catprintf-IsSds 7 abc dots abc-IsSds NoZero-dots

sds_splitlen-pieces_example :
    sds_splitlen (97 ∷ 32 ∷ 32 ∷ 98 ∷ []) (32 ∷ []) ≡ (97 ∷ []) ∷ [] ∷ (98 ∷ []) ∷ []
sds_splitlen-pieces_example = sds_splitlen-pieces (97 ∷ 32 ∷ 32 ∷ 98 ∷ []) 32

-- `sdsnew` copies up to the first zero.
new_run : text_of (sds_new (some (97 ∷ 98 ∷ 0 ∷ 99 ∷ []))) ≡ 97 ∷ 98 ∷ []
unfolding sds_new sds_newlen strlen
new_run = refl

-- A range behind the text keeps its last byte.
sds_range-IsSds_example :
    (r : Sds) × (sds_range abc (pos 5) (pos 7) ≡ some r) × IsSds r × (text r ≡ 99 ∷ [])
sds_range-IsSds_example = sds_range-IsSds abc (pos 5) (pos 7) 5 7 abc-IsSds refl refl
