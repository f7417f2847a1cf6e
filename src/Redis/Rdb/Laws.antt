-- ===== src/Redis/Rdb/Laws.antt =====
-- What loading reads back of what saving wrote.
use homemade.Prelude.{
  ℕ, suc, ◌<◌, ◌≡◌, refl, sym, ap, ◌∙◌, true, Option, none, some, List, [], ◌∷◌, ◌++◌, arith,
  length, ◌>>=◌, >>=-eq-some, ltb, leb, length-append, take-length_append, drop-length_append,
  append_assoc, append-nil, inl, inr, Option-cases, Bool-cases,
}
use homemade.Dict.Table.{create}
use homemade.Dict.Ops.{find}
use homemade.Dict.Grow.{create-IsValid}
use homemade.Dict.Add.{add-IsAdded}
use homemade.Redis.Object.{Bytes, Obj, set_dict_type, set_dict_type-IsLawful}
use homemade.Redis.Rdb.Write.{
  htonl, Output, fwrite, write_sds_to_file, write_elements, write_list_to_file, type_byte,
  write_entry,
}
use homemade.Redis.Rdb.Load.{
  done, abort, fread, ntohl, read_length, deserialize_string_object, read_elements,
  deserialize_list, after_add, read_members, deserialize_set,
}

pub ntohl-htonl : (n : ℕ) (rest : Bytes) → n < 4294967296 → ntohl (htonl n ++ rest) ≡ n
ntohl-htonl n rest h = omega arith

pub read_length-htonl :
    (n : ℕ) (rest : Bytes) → n < 4294967296 → read_length (htonl n ++ rest) ≡ done n rest
unfolding read_length fread
read_length-htonl n rest h =
    let enough : leb 4 (length (htonl n ++ rest)) ≡ true = ground arith in
    rw enough (ap (λ m. done m rest) (ntohl-htonl n [] h))

written_of : Option Output → Bytes
written_of none = []
written_of (some fp) = fp.written

pub fwrite-eq :
    (b : Bytes) (fp fp' : Output) → fwrite b fp ≡ some fp' → fp'.written ≡ fp.written ++ b
unfolding fwrite written_of
fwrite-eq [] fp fp' h = cc
fwrite-eq (x ∷ b) fp fp' h = elim (Bool-cases (leb (length (x ∷ b)) fp.room)) [
  | inl fits ↦ sym (ap written_of (rw fits at h))
  | inr full ↦ absurd (let h' = rw full at h in cc)
]

fwrite_nil : (fp : Output) → fwrite [] fp ≡ none
unfolding fwrite
fwrite_nil fp = refl

-- The file gained `chunk`.
abbrev pub Gains : Output → Output → Bytes → Type 0
Gains fp fp' chunk = fp'.written ≡ fp.written ++ chunk

pub Gains-trans :
    (fp fp' fp'' : Output) (a b : Bytes)
    → Gains fp fp' a
    → Gains fp' fp'' b
    → Gains fp fp'' (a ++ b)
Gains-trans fp fp' fp'' a b g h = h ∙ ap (λ w. w ++ b) g ∙ append_assoc fp.written a b

-- `fread` of a string that stands in front.
pub fread-front : (b rest : Bytes) → fread (length b) (b ++ rest) ≡ done b rest
unfolding fread
fread-front b rest =
    let enough : leb (length b) (length (b ++ rest)) ≡ true =
      ground (arith, length-append b rest) in
    rw (enough, take-length_append b rest, drop-length_append b rest) refl

abbrev Short : Bytes → Type 0
Short b = length b < 4294967296

-- The bytes of a string, of a list and of an entry in the file.
abbrev pub sds_bytes : Bytes → Bytes
sds_bytes b = htonl (length b) ++ b

abbrev pub elements_bytes : List Bytes → Bytes
elements_bytes [] = []
elements_bytes (x ∷ xs) = sds_bytes x ++ elements_bytes xs

abbrev pub list_bytes : List Bytes → Bytes
list_bytes xs = htonl (length xs) ++ elements_bytes xs

pub write_sds_to_file-Gains :
    (b : Bytes) (fp fp' : Output) → write_sds_to_file b fp ≡ some fp' → Gains fp fp' (sds_bytes b)
unfolding write_sds_to_file
write_sds_to_file-Gains [] fp fp' run =
    let (f, p, q) = >>=-eq-some (fwrite (htonl 0) fp) _ run in
    let e : f ≡ fp' = cc in rw (sym e) (fwrite-eq (htonl 0) fp f p)
write_sds_to_file-Gains (x ∷ b) fp fp' run =
    let (f, p, q) = >>=-eq-some (fwrite (htonl (length (x ∷ b))) fp) _ run in
    let some_bytes : ltb 0 (length (x ∷ b)) ≡ true = ground arith in
    let q' = rw some_bytes at q in
    Gains-trans fp f fp' (htonl (length (x ∷ b))) (x ∷ b)
      (fwrite-eq (htonl (length (x ∷ b))) fp f p) (fwrite-eq (x ∷ b) f fp' q')

write_elements-Gains :
    (xs : List Bytes) (fp fp' : Output)
    → write_elements xs fp ≡ some fp'
    → Gains fp fp' (elements_bytes xs)
unfolding write_elements
write_elements-Gains [] fp fp' run =
    let e : fp ≡ fp' = cc in rw (sym e) (sym (append-nil fp.written))
write_elements-Gains (x ∷ xs) fp fp' run =
    let (f, p, q) = >>=-eq-some (write_sds_to_file x fp) _ run in
    Gains-trans fp f fp' (sds_bytes x) (elements_bytes xs) (write_sds_to_file-Gains x fp f p)
      (write_elements-Gains xs f fp' q)

pub write_list_to_file-Gains :
    (xs : List Bytes) (fp fp' : Output)
    → write_list_to_file xs fp ≡ some fp'
    → Gains fp fp' (list_bytes xs)
unfolding write_list_to_file
write_list_to_file-Gains xs fp fp' run =
    let (f, p, q) = >>=-eq-some (fwrite (htonl (length xs)) fp) _ run in
    Gains-trans fp f fp' (htonl (length xs)) (elements_bytes xs)
      (fwrite-eq (htonl (length xs)) fp f p) (write_elements-Gains xs f fp' q)

pub read_sds_bytes :
    (b rest : Bytes)
    → length b < 4294967296
    → deserialize_string_object (sds_bytes b ++ rest) ≡ done b rest
unfolding deserialize_string_object
read_sds_bytes [] rest short = rw (read_length-htonl 0 rest short) refl
read_sds_bytes (x ∷ b) rest short =
    let some_bytes : ltb 0 (length (x ∷ b)) ≡ true = ground arith in
    rw (read_length-htonl (length (x ∷ b)) (x ∷ b ++ rest) short, some_bytes)
      (fread-front (x ∷ b) rest)

-- Every string of a list is short enough for its length to fit the file's 32 bits.
abbrev pub AllShort : List Bytes → Type 0
AllShort [] = Unit
AllShort (x ∷ xs) = (length x < 4294967296) × AllShort xs

read_elements-bytes :
    (xs ys : List Bytes) (rest : Bytes)
    → AllShort xs
    → read_elements (length xs) ys (elements_bytes xs ++ rest) ≡ done (ys ++ xs) rest
unfolding read_elements
read_elements-bytes [] ys rest short = rw (append-nil ys) refl
read_elements-bytes (x ∷ xs) ys rest (short, shorts) =
    ap (λ w. read_elements (length (x ∷ xs)) ys w)
      (append_assoc (sds_bytes x) (elements_bytes xs) rest)
    ∙ rw
        (
          read_sds_bytes x (elements_bytes xs ++ rest) short,
          read_elements-bytes xs (ys ++ x ∷ []) rest shorts,
          append_assoc ys (x ∷ []) xs,
        )
        refl

-- A string that `writeSdsToFile` managed to write is what `deserializeStringObject` reads back, whatever
-- follows in the file.
pub deserialize_string_object-write_sds_to_file :
    (b : Bytes) (fp fp' : Output)
    → length b < 4294967296
    → write_sds_to_file b fp ≡ some fp'
    → (chunk : Bytes) × (fp'.written ≡ fp.written ++ chunk)
      × ((rest : Bytes) → deserialize_string_object (chunk ++ rest) ≡ done b rest)
deserialize_string_object-write_sds_to_file b fp fp' short run =
    (sds_bytes b, write_sds_to_file-Gains b fp fp' run, λ rest. read_sds_bytes b rest short)

pub read_list_bytes :
    (xs : List Bytes) (rest : Bytes)
    → length xs < 4294967296
    → AllShort xs
    → deserialize_list (list_bytes xs ++ rest) ≡ done xs rest
unfolding deserialize_list
read_list_bytes xs rest few short =
    rw (read_length-htonl (length xs) (elements_bytes xs ++ rest) few)
      (read_elements-bytes xs [] rest short)

-- A list that `writeListToFile` managed to write is what `deserializeList` reads back, whatever follows
-- in the file, as long as its length and those of its elements fit 32 bits.
pub deserialize_list-write_list_to_file :
    (xs : List Bytes) (fp fp' : Output)
    → length xs < 4294967296
    → AllShort xs
    → write_list_to_file xs fp ≡ some fp'
    → (chunk : Bytes) × (fp'.written ≡ fp.written ++ chunk)
      × ((rest : Bytes) → deserialize_list (chunk ++ rest) ≡ done xs rest)
deserialize_list-write_list_to_file xs fp fp' few short run = (
  list_bytes xs,
  write_list_to_file-Gains xs fp fp' run,
  λ rest. read_list_bytes xs rest few short,
)

-- A set cannot be loaded: where the file counts at least one member, and has it, the server aborts.
pub deserialize_set-aborts :
    (n : ℕ) (ele rest : Bytes)
    → suc n < 4294967296
    → length ele < 4294967296
    → deserialize_set (htonl (suc n) ++ sds_bytes ele ++ rest) ≡ abort
unfolding deserialize_set read_members after_add find create
deserialize_set-aborts n ele rest few short =
    let (d, run, _) =
      add-IsAdded set_dict_type-IsLawful create ele tt (create-IsValid set_dict_type) (omega arith)
        refl in
    rw (read_length-htonl (suc n) (sds_bytes ele ++ rest) few, read_sds_bytes ele rest short, run)
      refl

-- A key of no bytes is never written: `writeOneDBToFile` fails on its entry.
pub write_entry_empty_key :
    (o : Obj) (fp : Output) → write_entry (record { key = []; val = o }) fp ≡ none
unfolding write_entry
write_entry_empty_key o fp = elim (Option-cases (fwrite (type_byte o ∷ []) fp)) [
  | inl h ↦ rw (h, ◌>>=◌)
  | inr (f, h) ↦
      rw (h, ◌>>=◌)
        (elim (Option-cases (fwrite (htonl 0) f)) [
          | inl h' ↦ rw (h', ◌>>=◌) refl
          | inr (g, h') ↦ rw (h', ◌>>=◌, fwrite_nil g) refl
        ])
]
