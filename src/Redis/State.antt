-- ===== src/Redis/State.antt =====
-- What the commands of redis/src/redis.c read and write: the databases and the counter of changes of
-- `struct redisServer`, the selected database and the reply of the client. `c->dict` is the database
-- that `c->dictid` names. A reply is the list of the strings queued so far.
use homemade.Prelude.{
  ℕ, ◌+◌, ◌<◌, ◌≡◌, ◌≢◌, Option, List, [], ◌∷◌, ◌++◌, arith, get_or, set, length, if◌then◌else◌,
}
use homemade.Dict.Types.{Dict, compare_hash_keys, value_of}
use homemade.Dict.Table.{create}
use homemade.Dict.Ops.{find}
use homemade.Dict.Placed.{get_or-set}
use homemade.Dict.Grow.{IsValid}
use homemade.Dict.Add.{max_size}
use homemade.Redis.Object.{Bytes, Obj, hash_dict_type}

abbrev pub Db : Type 0
Db = Dict Bytes Obj

pub record State : Type 0 where
  pub dicts : List Db
  pub dbnum : ℕ
  pub dirty : ℕ
  pub dictid : ℕ
  pub reply : List Bytes

-- `addReply`, for a client whose write handler can be installed
abbrev pub add_reply : Bytes → State → State
add_reply s st = record st { reply = st.reply ++ s ∷ [] }

-- `c->dict`
abbrev pub db : State → Db
db st = get_or st.dicts st.dictid create

abbrev pub with_db : Db → State → State
with_db d st = record st { dicts = set st.dicts st.dictid d }

-- `server.dirty++`
abbrev pub touch : State → State
touch st = record st { dirty = st.dirty + 1 }

-- What the selected database holds under a key.
abbrev pub holds : State → Bytes → Option Obj
holds st k = value_of (find hash_dict_type (db st) k)

-- The selected database exists and is a valid table.
pub record IsOpen (st : State) : Type 0 where
  pub valid : IsValid hash_dict_type (db st)
  pub selected : st.dictid < length st.dicts

-- It can take one more key, too.
pub record IsReady (st : State) : Type 0 where
  pub opened : IsOpen st
  pub open opened use *
  pub room : (db st).used < max_size

-- `t` differs from `s` in what the selected database holds under `k`, which is `o` now.
pub record Writes (s t : State) (k : Bytes) (o : Option Obj) : Type 0 where
  pub opened : IsOpen t
  pub open opened use *
  pub values :
      (q : Bytes) → holds t q ≡ (if compare_hash_keys hash_dict_type q k then o else holds s q)
  pub others : (i : ℕ) → i ≢ s.dictid → get_or t.dicts i create ≡ get_or s.dicts i create
  pub dictid : t.dictid ≡ s.dictid

-- `t` holds what `s` holds in every database.
pub record Keeps (s t : State) : Type 0 where
  pub opened : IsOpen t
  pub open opened use *
  pub values : (q : Bytes) → holds t q ≡ holds s q
  pub others : (i : ℕ) → i ≢ s.dictid → get_or t.dicts i create ≡ get_or s.dicts i create
  pub dictid : t.dictid ≡ s.dictid

pub db-with_db : (d : Db) (st : State) → st.dictid < length st.dicts → db (with_db d st) ≡ d
db-with_db d st h = rw (get_or-set st.dicts st.dictid st.dictid d create h) (ground arith)

pub others-with_db :
    (d : Db) (st : State) (i : ℕ)
    → st.dictid < length st.dicts
    → i ≢ st.dictid
    → get_or (with_db d st).dicts i create ≡ get_or st.dicts i create
others-with_db d st i h ne = rw (get_or-set st.dicts i st.dictid d create h) (ground arith)
