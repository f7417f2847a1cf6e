-- ===== src/Redis/DumpLaws.antt =====
-- `dumpMasterRDB` of redis/src/redis.c: the loop that stores the master's dump.
use homemade.Prelude.{
  ℕ, zero, suc, ◌-◌, ◌≤◌, ◌<◌, ◌≡◌, refl, sym, ap, ◌∙◌, Bool, true, false, Option, none, some, [],
  ◌++◌, arith, ◌⊎◌, inl, inr, length, min, Option-cases, append_assoc, append-nil, length-append,
}
use homemade.Redis.Object.{Bytes}
use homemade.Redis.Replica.{store_chunk, stored_then, dump_loop}
use homemade.Net.System.{Streams}
use homemade.Net.StreamLaws.{HasRead}

-- What a `write` to a file does: all the bytes, or an error.
abbrev pub StoresAll : Bytes → Bytes → Option ℕ → Bytes → Type 0
StoresAll bytes before none after = Unit {0}
StoresAll bytes before (some n) after = after ≡ before ++ bytes

-- A master that goes on sending, and a file for what it sends.
pub record Feeds {World : Type 0} (io : Streams World) (fd dfd : ℕ) (waiting stored : World → Bytes)
    : Type 0 where
  pub reads :
      (count : ℕ) (w : World)
      → HasRead count (waiting w) (io.read fd count w).0 (waiting (io.read fd count w).1)
  pub reads_some :
      (count : ℕ) (chunk : Bytes) (w : World)
      → (io.read fd (suc count) w).0 ≡ some chunk
      → 0 < length chunk
  pub read_keeps : (count : ℕ) (w : World) → stored (io.read fd count w).1 ≡ stored w
  pub writes :
      (bytes : Bytes) (w : World)
      → StoresAll bytes (stored w) (io.write dfd bytes w).0 (stored (io.write dfd bytes w).1)
  pub write_keeps : (bytes : Bytes) (w : World) → waiting (io.write dfd bytes w).1 ≡ waiting w

-- A run of the loop that ends: with an error, or with the next `dumpsize` bytes moved to the file.
pub record Dumps {World : Type 0} (waiting stored : World → Bytes) (run : Option (Bool × World))
    (dumpsize : ℕ) (w : World) : Type 0 where
  pub result : Bool
  pub world : World
  pub got : Bytes
  pub ends : run ≡ some (result, world)
  pub moved :
      (result ≡ false)
      ⊎ ((length got ≡ dumpsize)
          × (waiting w ≡ got ++ waiting world)
          × (stored world ≡ stored w ++ got))

module _ {World : Type 0} {io : Streams World} {fd dfd : ℕ} {waiting stored : World → Bytes}
    (law : Feeds io fd dfd waiting stored) where
  fails : (dumpsize : ℕ) (w w' : World) → Dumps waiting stored (some (false, w')) dumpsize w
  fails dumpsize w w' = record {
    result = false;
    world = w';
    got = [];
    ends = refl;
    moved = inl refl;
  }

  -- One chunk, and then the rest.
  with_chunk :
      (run : Option (Bool × World)) (chunk : Bytes) (dumpsize : ℕ) (w v : World)
      → length chunk ≤ dumpsize
      → waiting w ≡ chunk ++ waiting v
      → stored v ≡ stored w ++ chunk
      → Dumps waiting stored run (dumpsize - length chunk) v
      → Dumps waiting stored run dumpsize w
  with_chunk run chunk dumpsize w v le came went d = record {
    result = d.result;
    world = d.world;
    got = chunk ++ d.got;
    ends = d.ends;
    moved = elim d.moved [
      | inl error ↦ inl error
      | inr (all, taken, kept) ↦ inr (
        omega (arith, all, length-append chunk d.got),
        came ∙ ap (λ xs. chunk ++ xs) taken ∙ sym (append_assoc chunk d.got (waiting d.world)),
        kept ∙ ap (λ xs. xs ++ d.got) went ∙ append_assoc (stored w) chunk d.got,
      )
    ];
  }

  min-suc : (n : ℕ) → min (suc n) 1024 ≡ suc (min n 1023)
  min-suc n = omega arith

  -- A master that sends at least a byte for each `read`, and a file that takes all it is given or fails:
  -- the loop of `dumpMasterRDB` ends, with an error or with the next `dumpsize` bytes of the master, no
  -- more, at the end of the file.
  pub dump_loop-Dumps :
      (fuel dumpsize : ℕ) (w : World)
      → dumpsize < fuel
      → Dumps waiting stored (dump_loop io fuel fd dfd dumpsize w) dumpsize w
  unfolding dump_loop store_chunk stored_then
  dump_loop-Dumps zero dumpsize w h = absurd (omega arith)
  dump_loop-Dumps (suc fuel) zero w h = record {
    result = true;
    world = w;
    got = [];
    ends = refl;
    moved = inr (refl, refl, sym (append-nil (stored w)));
  }
  dump_loop-Dumps (suc fuel) (suc dumpsize) w h =
      let count = min (suc dumpsize) 1024 in
      let v = (io.read fd count w).1 in
      elim (Option-cases (io.read fd count w).0) [
        | inl failed ↦ rw (failed, store_chunk) (fails (suc dumpsize) w v)
        | inr (chunk, came) ↦
            let did : HasRead count (waiting w) (some chunk) (waiting v) =
              rw came at (law.reads count w) in
            let u = (io.write dfd chunk v).1 in
            let some_bytes : 0 < length chunk =
              law.reads_some (min dumpsize 1023) chunk w (rw (← min-suc dumpsize) came) in
            elim (Option-cases (io.write dfd chunk v).0) [
              | inl full ↦ rw (came, store_chunk, full, stored_then) (fails (suc dumpsize) w u)
              | inr (n, wrote) ↦
                  let put : StoresAll chunk (stored v) (some n) (stored u) =
                    rw wrote at (law.writes chunk v) in
                  rw (came, store_chunk, wrote, stored_then)
                    (with_chunk _ chunk (suc dumpsize) w u (omega (arith, did.0))
                      (did.1 ∙ ap (λ xs. chunk ++ xs) (sym (law.write_keeps chunk v)))
                      (put ∙ ap (λ xs. xs ++ chunk) (law.read_keeps count w))
                      (dump_loop-Dumps fuel (suc dumpsize - length chunk) u
                        (omega (arith, some_bytes))))
            ]
      ]

-- A master that is at the end of its stream, and a file that takes an empty `write`.
pub record IsEnded {World : Type 0} (io : Streams World) (fd dfd : ℕ) : Type 0 where
  pub no_bytes : (count : ℕ) (w : World) → (io.read fd count w).0 ≡ some []
  pub no_error : (w : World) → (n : ℕ) × ((io.write dfd [] w).0 ≡ some n)

-- Where the master closed the connection before the whole dump came, so that each `read` gives no bytes: the
-- loop of `dumpMasterRDB` never ends.
pub dump_loop-spins :
    {World : Type 0} (io : Streams World) (fd dfd : ℕ)
    → IsEnded io fd dfd
    → (fuel dumpsize : ℕ) (w : World) → dump_loop io fuel fd dfd (suc dumpsize) w ≡ none
unfolding dump_loop store_chunk stored_then
dump_loop-spins io fd dfd ended zero dumpsize w = refl
dump_loop-spins io fd dfd ended (suc fuel) dumpsize w =
    let count = min (suc dumpsize) 1024 in
    let v = (io.read fd count w).1 in
    let as_much : suc dumpsize - 0 ≡ suc dumpsize = omega arith in
    rw (ended.no_bytes count w, store_chunk, (ended.no_error v).1, stored_then, as_much)
      (dump_loop-spins io fd dfd ended fuel dumpsize (io.write dfd [] v).1)
