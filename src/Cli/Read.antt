-- ===== src/Cli/Read.antt =====
-- How redis/src/redis-cli.c reads a reply. `input` is what the server sends; behind it `read` answers 0,
-- or -1 where `broken`. `none` is a loop that does not end, a read of a byte that was never written, or
-- one out of the allocated bytes. A function answers its return value, what is left of the input, and
-- what it prints.
use homemade.Prelude.{
  ℕ, zero, suc, ◌+◌, ◌-◌, Bool, true, ◌&&◌, ◌||◌, not, Option, none, some, List, [], ◌∷◌, ◌++◌,
  length, if◌then◌else◌, ◌>>=◌, leb, ◌==◌, take, drop, get_or,
}
use homemade.Prelude.Int.{ℤ, pos, negsuc, ltb_ℤ}
use homemade.Sds.Ops.{count_front, count_back}
use homemade.Redis.Object.{codes, memcmp_eq}
use homemade.Redis.Decimal.{atoi, print_ℕ}
use homemade.Cli.Table.{ReplyKind, int_reply, retcode_reply}

pub record Replied : Type 0 where
  pub code : ℕ
  pub input : List ℕ
  pub printed : List ℕ

-- The text that `sdstrim` leaves of a text.
abbrev pub trimmed : List ℕ → List ℕ → List ℕ
trimmed cset t =
    take (length t - (count_front cset t + count_back cset t)) (drop (count_front cset t) t)

-- The loop of `cliReadLine`: NULL, or the bytes before the newline, and the input behind it. Where the
-- input ends, the loop goes on with the byte that it read last.
unfoldable pub read_until_newline : Bool → List ℕ → List ℕ → Option (Option (List ℕ) × List ℕ)
read_until_newline broken line [] = if broken then some (none, []) else none
read_until_newline broken line (c ∷ input) =
    let rest = read_until_newline broken (line ++ c ∷ []) input in
    if c == 10 then some (some line, input) else rest

unfoldable pub trim_line : Option (List ℕ) × List ℕ → Option (List ℕ) × List ℕ
trim_line (none, input) = (none, input)
trim_line (some line, input) = (some (trimmed (13 ∷ 10 ∷ []) line), input)

-- `cliReadLine`
unfoldable pub cli_read_line : Bool → List ℕ → Option (Option (List ℕ) × List ℕ)
cli_read_line broken input = read_until_newline broken [] input >>= λ r. some (trim_line r)

abbrev pub exit_code : Bool → ℕ
exit_code b = if b then 1 else 0

unfoldable pub inline_code : ReplyKind → List ℕ → ℕ
inline_code int_reply reply = exit_code (ltb_ℤ (atoi reply) (pos 0))
inline_code retcode_reply reply = exit_code (get_or reply 0 0 == 45)
inline_code kind reply = 0

unfoldable pub inline_line : ReplyKind → Option (List ℕ) × List ℕ → Replied
unfolding inline_code
inline_line kind (none, input) = record { code = 1; input = input; printed = [] }
inline_line kind (some reply, input) = record {
  code = inline_code kind reply;
  input = input;
  printed = reply ++ 10 ∷ [];
}

-- `cliReadInlineReply`
unfoldable pub cli_read_inline_reply : Bool → ReplyKind → List ℕ → Option Replied
unfolding inline_line
cli_read_inline_reply broken kind input =
    cli_read_line broken input >>= λ r. some (inline_line kind r)

-- `cliReadBulkReply` from the length on: `anetRead` of the bytes and of the line end, and `fwrite`, which
-- succeeds. The reply is on a terminal where `tty`.
unfoldable pub bulk_body : Bool → Bool → ℕ → ℕ → List ℕ → Option Replied
bulk_body tty multibulk code bulklen input =
    let reply = take bulklen input in
    let newline = not multibulk && tty && not (get_or reply (bulklen - 1) 0 == 10) in
    if not (leb bulklen (length input)) || (not multibulk && tty && (bulklen == 0))
    then none
    else some (record {
      code = code;
      input = drop (bulklen + 2) input;
      printed = reply ++ (if newline then 10 ∷ [] else []);
    })

unfoldable pub bulk_length : Bool → Bool → ℤ → List ℕ → Option Replied
unfolding bulk_body
bulk_length tty multibulk (pos n) input = bulk_body tty multibulk 0 n input
bulk_length tty multibulk (negsuc n) input =
    if multibulk && (n == 0)
    then some (record { code = 0; input = input; printed = codes "(nil)" })
    else bulk_body tty multibulk 1 (suc n) input

unfoldable pub bulk_line : Bool → Bool → Option (List ℕ) × List ℕ → Option Replied
unfolding bulk_length
bulk_line tty multibulk (none, input) = some (record { code = 1; input = input; printed = [] })
bulk_line tty multibulk (some line, input) =
    if memcmp_eq line (codes "nil")
    then some (record { code = 0; input = input; printed = codes "(nil)\n" })
    else bulk_length tty multibulk (atoi line) input

-- `cliReadBulkReply`
unfoldable pub cli_read_bulk_reply : Bool → Bool → Bool → List ℕ → Option Replied
cli_read_bulk_reply broken tty multibulk input =
    cli_read_line broken input >>= λ r. bulk_line tty multibulk r

abbrev pub numbered : ℕ → List ℕ
numbered c = print_ℕ c ++ codes ". "

-- The rounds of `cliReadMultiBulkReply`, from the element numbered `c` on.
unfoldable pub element_next : ℕ → Replied → Replied → Replied
element_next c r q = record q { printed = numbered c ++ r.printed ++ 10 ∷ [] ++ q.printed }

unfoldable pub element_read : ℕ → (ℕ → List ℕ → Option Replied) → Replied → Option Replied
element_read c more r =
    let onward = more (c + 1) r.input >>= λ q. some (element_next c r q) in
    if r.code == 0 then onward else some (record r { code = 1; printed = numbered c ++ r.printed })

unfoldable pub cli_elements : Bool → Bool → ℕ → ℕ → List ℕ → Option Replied
cli_elements broken tty zero c input = some (record { code = 0; input = input; printed = [] })
cli_elements broken tty (suc elements) c input = cli_read_bulk_reply broken tty true input >>= λ r.
    element_read c (λ c' rest. cli_elements broken tty elements c' rest) r

-- A negative count does not reach 0 by `elements--` before the input ends: each round reads a line.
abbrev pub rounds : ℤ → List ℕ → ℕ
rounds (pos n) input = n
rounds (negsuc n) input = length input + 1

unfoldable pub multi_bulk_line : Bool → Bool → Option (List ℕ) × List ℕ → Option Replied
multi_bulk_line broken tty (none, input) = some (record { code = 1; input = input; printed = [] })
multi_bulk_line broken tty (some line, input) =
    if memcmp_eq line (codes "nil")
    then some (record { code = 0; input = input; printed = codes "(nil)\n" })
    else cli_elements broken tty (rounds (atoi line) input) 1 input

-- `cliReadMultiBulkReply`
unfoldable pub cli_read_multi_bulk_reply : Bool → Bool → List ℕ → Option Replied
cli_read_multi_bulk_reply broken tty input =
    cli_read_line broken input >>= λ r. multi_bulk_line broken tty r
