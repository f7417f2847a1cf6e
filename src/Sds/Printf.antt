-- ===== src/Sds/Printf.antt =====
-- The functions of redis/src/sds.c on strings that end with a zero: `sdsnew`, `sdscat`, `sdscpy` and
-- `sdscatprintf`. What the format makes of its arguments, which `vsnprintf` writes, is a parameter.
use homemade.Prelude.{
  ℕ, zero, suc, ◌-◌, ◌*◌, Option, none, some, List, [], ◌∷◌, ◌++◌, length, if◌then◌else◌, ◌>>=◌,
  ◌==◌, take, set, get_or, replicate,
}
use homemade.Sds.Ops.{Sds, copy_into, sds_newlen, sds_newlen_null, strlen, sds_catlen, sds_cpylen}

-- `sdsnew`, with NULL as `none`; the bytes are those from the pointer on
unfoldable pub sds_new : Option (List ℕ) → Option Sds
unfolding sds_newlen sds_newlen_null strlen
sds_new none = some (sds_newlen_null 0)
sds_new (some init) = sds_newlen init (strlen init)

-- `strlen` and the functions that take a number of bytes, together.
abbrev pub c_string : List ℕ → List ℕ
c_string t = take (strlen t) t

-- `vsnprintf(buf, length buf, ...)` of a text: as much of it as leaves room for the zero
unfoldable pub vsnprintf : List ℕ → List ℕ → Option (List ℕ)
unfolding copy_into
vsnprintf buf formatted = copy_into buf 0 (take (length buf - 1) formatted ++ 0 ∷ [])

module _ (junk : ℕ) where
  -- `sdscat`
  unfoldable pub sds_cat : Sds → List ℕ → Option Sds
  unfolding sds_catlen
  sds_cat s t = sds_catlen junk s (c_string t)

  -- `sdscpy`
  unfoldable pub sds_cpy : Sds → List ℕ → Option Sds
  unfolding sds_cpylen
  sds_cpy s t = sds_cpylen junk s (c_string t)

  -- The bytes of a new `buf`, with the zero that tells whether the text fits.
  unfoldable pub format_buffer : ℕ → List ℕ
  format_buffer buflen = set (replicate buflen junk) (buflen - 2) 0

  -- The loop of `sdscatprintf`: the buffer doubles until its last byte but one stays 0
  unfoldable pub format_loop : ℕ → ℕ → List ℕ → Option (List ℕ)
  unfolding vsnprintf format_buffer
  format_loop zero buflen formatted = none
  format_loop (suc fuel) buflen formatted =
      let longer = format_loop fuel (buflen * 2) formatted in
      vsnprintf (format_buffer buflen) formatted >>= λ buf.
      if get_or buf (buflen - 2) 0 == 0 then some buf else longer

  -- `sdscatprintf`, with a round for each byte of the text as fuel
  unfoldable pub sds_catprintf : Sds → List ℕ → Option Sds
  unfolding format_loop sds_cat
  sds_catprintf s formatted =
      format_loop (suc (length formatted)) 32 formatted >>= λ buf. sds_cat s buf
