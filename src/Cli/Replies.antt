-- ===== src/Cli/Replies.antt =====
-- The client of redis/src/redis-cli.c on the replies that redis/src/redis.c queues.
use homemade.Prelude.{
  ℕ, suc, ◌+◌, ◌-◌, ◌≡◌, refl, ap, ◌∙◌, Bool, true, false, some, List, [], ◌∷◌, ◌++◌, arith, length,
  ◌>>=◌, leb, ◌==◌, append_assoc, append-nil, length-append, drop-drop, take-length_append,
  drop-length_append,
}
use mathlib.Core.List.{flatten, reverse, reverse_aux}
use homemade.Sds.Ops.{in_set, count_front, count_back}
use homemade.Redis.Object.{Bytes, codes, memcmp_eq}
use homemade.Redis.Decimal.{print_ℕ, print_loop, All, is_digit, print_ℕ-digits, atoi-print_ℕ}
use homemade.Redis.ListLaws.{multi_bulk}
use homemade.Redis.Shared.{crlf}
use homemade.Redis.Strings.{number_line, bulks}
use homemade.Cli.Read.{
  trimmed, read_until_newline, trim_line, cli_read_line, cli_read_bulk_reply, bulk_line,
  bulk_length, bulk_body, cli_elements, element_read, element_next, numbered, multi_bulk_line,
  cli_read_multi_bulk_reply,
}

-- No byte that ends a line or a string.
abbrev pub IsLine : List ℕ → Type 0
IsLine [] = Unit
IsLine (c ∷ w) = (in_set (13 ∷ 10 ∷ []) c ≡ false) × IsLine w

read_until_newline-line :
    (broken : Bool) (line w rest : List ℕ)
    → IsLine w
    → read_until_newline broken line (w ++ crlf ++ rest) ≡ some (some (line ++ w ++ 13 ∷ []), rest)
unfolding read_until_newline in_set
read_until_newline-line broken line [] rest h = rw (append-nil line) refl
read_until_newline-line broken line (c ∷ w) rest h =
    let other : (c == 10) ≡ false = ground (arith, h.0) in
    rw
      (
        other,
        read_until_newline-line broken (line ++ c ∷ []) w rest h.1,
        append_assoc line (c ∷ []) w,
      )
      refl

count_front-none : (w : List ℕ) → IsLine w → count_front (13 ∷ 10 ∷ []) w ≡ 0
unfolding count_front
count_front-none [] h = refl
count_front-none (c ∷ w) h = ground (arith, h.0)

IsLine-append : (v w : List ℕ) → IsLine v → IsLine w → IsLine (v ++ w)
IsLine-append [] w h k = k
IsLine-append (c ∷ v) w h k = (h.0, IsLine-append v w h.1 k)

IsLine-reverse_aux : (w r : List ℕ) → IsLine w → IsLine r → IsLine (reverse_aux w r)
IsLine-reverse_aux [] r h k = k
IsLine-reverse_aux (c ∷ w) r h k = IsLine-reverse_aux w (c ∷ r) h.1 (h.0, k)

reverse_aux-append : (w r : List ℕ) (x : ℕ) → reverse_aux (w ++ x ∷ []) r ≡ x ∷ reverse_aux w r
reverse_aux-append [] r x = refl
reverse_aux-append (c ∷ w) r x = reverse_aux-append w (c ∷ r) x

trimmed-line : (w : List ℕ) → IsLine w → trimmed (13 ∷ 10 ∷ []) (w ++ 13 ∷ []) ≡ w
unfolding count_front count_back in_set
trimmed-line [] h = refl
trimmed-line (c ∷ w) h =
    let front : count_front (13 ∷ 10 ∷ []) (c ∷ (w ++ 13 ∷ [])) ≡ 0 = ground (arith, h.0) in
    let back : count_back (13 ∷ 10 ∷ []) (c ∷ (w ++ 13 ∷ [])) ≡ 1 =
      rw (reverse_aux-append w [] 13)
        (ap suc (count_front-none (reverse w) (IsLine-reverse_aux w [] h.1 tt))) in
    let n : length (c ∷ (w ++ 13 ∷ [])) - (0 + 1) ≡ suc (length w) =
      omega (arith, length-append w (13 ∷ [])) in
    rw (front, back, n) (ap (λ u. c ∷ u) (take-length_append w (13 ∷ [])))

-- `cliReadLine` gives back a line without the bytes that end it.
cli_read_line-line :
    (broken : Bool) (w rest : List ℕ)
    → IsLine w
    → cli_read_line broken (w ++ crlf ++ rest) ≡ some (some w, rest)
unfolding cli_read_line trim_line
cli_read_line-line broken w rest h =
    rw (read_until_newline-line broken [] w rest h, ◌>>=◌, trimmed-line w h) refl

digits-IsLine : (w : List ℕ) → All is_digit w → IsLine w
unfolding in_set
digits-IsLine [] h = tt
digits-IsLine (c ∷ w) h = (ground (arith, h.0), digits-IsLine w h.1)

digits-nil : (w : List ℕ) → All is_digit w → memcmp_eq w (codes "nil") ≡ false
unfolding memcmp_eq
digits-nil [] h = refl
digits-nil (c ∷ w) h = ground (arith, h.0)

-- The line that announces a length.
number_line-read :
    (broken : Bool) (n : ℕ) (rest : List ℕ)
    → cli_read_line broken (number_line n ++ rest) ≡ some (some (print_ℕ n), rest)
number_line-read broken n rest =
    cli_read_line-line broken (print_ℕ n) rest (digits-IsLine (print_ℕ n) (print_ℕ-digits n))

cli_read_bulk_reply-element :
    (broken tty : Bool) (x rest : List ℕ)
    → cli_read_bulk_reply broken tty true (number_line (length x) ++ (x ++ (crlf ++ rest)))
      ≡ some (record { code = 0; input = rest; printed = x })
unfolding cli_read_bulk_reply bulk_line bulk_length bulk_body
cli_read_bulk_reply-element broken tty x rest =
    let fits : leb (length x) (length (x ++ (crlf ++ rest))) ≡ true =
      ground (arith, length-append x (crlf ++ rest)) in
    rw
      (
        number_line-read broken (length x) (x ++ (crlf ++ rest)),
        ◌>>=◌,
        digits-nil (print_ℕ (length x)) (print_ℕ-digits (length x)),
        atoi-print_ℕ (length x),
        fits,
        take-length_append x (crlf ++ rest),
        ← drop-drop 2 (length x) (x ++ (crlf ++ rest)),
        drop-length_append x (crlf ++ rest),
        append-nil x,
      )
      refl

-- The first element in front of the others.
flatten-bulks :
    (x : Bytes) (xs : List Bytes) (rest : List ℕ)
    → flatten (bulks (x ∷ xs)) ++ rest
      ≡ number_line (length x) ++ (x ++ (crlf ++ (flatten (bulks xs) ++ rest)))
unfolding flatten
flatten-bulks x xs rest =
    append_assoc (number_line (length x)) (x ++ (crlf ++ flatten (bulks xs))) rest
    ∙ ap (λ w. number_line (length x) ++ w) (append_assoc x (crlf ++ flatten (bulks xs)) rest)

flatten_nil : (rest : List ℕ) → flatten {A = ℕ} [] ++ rest ≡ rest
unfolding flatten
flatten_nil rest = refl

-- The length line in front of the elements.
flatten-multi_bulk :
    (xs : List Bytes) (rest : List ℕ)
    → flatten (multi_bulk xs) ++ rest ≡ number_line (length xs) ++ (flatten (bulks xs) ++ rest)
unfolding flatten print_ℕ print_loop
flatten-multi_bulk [] rest = refl
flatten-multi_bulk (x ∷ xs) rest =
    append_assoc (number_line (length (x ∷ xs))) (flatten (bulks (x ∷ xs))) rest

-- What the client prints for the elements from number `c` on.
abbrev pub listing : ℕ → List Bytes → List ℕ
listing c [] = []
listing c (x ∷ xs) = numbered c ++ x ++ 10 ∷ [] ++ listing (c + 1) xs

cli_elements-listing :
    (broken tty : Bool) (xs : List Bytes) (c : ℕ) (rest : List ℕ)
    → cli_elements broken tty (length xs) c (flatten (bulks xs) ++ rest)
      ≡ some (record { code = 0; input = rest; printed = listing c xs })
unfolding cli_elements element_read element_next
cli_elements-listing broken tty [] c rest = rw (flatten_nil rest) refl
cli_elements-listing broken tty (x ∷ xs) c rest =
    rw
      (
        flatten-bulks x xs rest,
        cli_read_bulk_reply-element broken tty x (flatten (bulks xs) ++ rest),
        ◌>>=◌,
        cli_elements-listing broken tty xs (c + 1) rest,
      )
      refl

-- A multi-bulk reply of the server, with whatever follows it on the connection: the client reads exactly
-- the reply, prints the elements in order, each with its number and on a line of its own, and succeeds,
-- whether or not it prints to a terminal.
pub cli_read_multi_bulk_reply-multi_bulk :
    (broken tty : Bool) (xs : List Bytes) (rest : List ℕ)
    → cli_read_multi_bulk_reply broken tty (flatten (multi_bulk xs) ++ rest)
      ≡ some (record { code = 0; input = rest; printed = listing 1 xs })
unfolding cli_read_multi_bulk_reply multi_bulk_line
cli_read_multi_bulk_reply-multi_bulk broken tty xs rest =
    rw
      (
        flatten-multi_bulk xs rest,
        number_line-read broken (length xs) (flatten (bulks xs) ++ rest),
        ◌>>=◌,
        digits-nil (print_ℕ (length xs)) (print_ℕ-digits (length xs)),
        atoi-print_ℕ (length xs),
        cli_elements-listing broken tty xs 1 rest,
      )
      refl
