-- ===== src/Redis/Shared.antt =====
-- The shared reply objects of redis/src/redis.c, as `createSharedObjects` builds them.
use homemade.Prelude.{◌++◌}
use homemade.Redis.Object.{Bytes, codes}

abbrev pub crlf : Bytes
crlf = codes "\r\n"

abbrev pub ok : Bytes
ok = codes "+OK\r\n"

abbrev pub err : Bytes
err = codes "-ERR\r\n"

abbrev pub nil : Bytes
nil = codes "nil\r\n"

abbrev pub zero : Bytes
zero = codes "0\r\n"

abbrev pub one : Bytes
one = codes "1\r\n"

abbrev pub minus1 : Bytes
minus1 = codes "-1\r\n"

abbrev pub minus2 : Bytes
minus2 = codes "-2\r\n"

abbrev pub minus3 : Bytes
minus3 = codes "-3\r\n"

abbrev pub minus4 : Bytes
minus4 = codes "-4\r\n"

abbrev pub pong : Bytes
pong = codes "+PONG\r\n"

abbrev pub wrongtypeerr : Bytes
wrongtypeerr = codes "-ERR Operation against a key holding the wrong kind of value\r\n"

-- the length line is `-sdslen + 2`, so that it is negative
abbrev pub wrongtypeerrbulk : Bytes
wrongtypeerrbulk = codes "-60\r\n" ++ wrongtypeerr

abbrev pub nokeyerr : Bytes
nokeyerr = codes "-ERR no such key\r\n"

-- its length line is negative too
abbrev pub nokeyerrbulk : Bytes
nokeyerrbulk = codes "-16\r\n" ++ nokeyerr

abbrev pub syntaxerr : Bytes
syntaxerr = codes "-ERR syntax error\r\n"

-- its length line is negative too
abbrev pub syntaxerrbulk : Bytes
syntaxerrbulk = codes "-17\r\n" ++ syntaxerr
