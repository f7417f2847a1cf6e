-- ===== src/Net/StreamLaws.antt =====
-- What `anetWrite` and `anetRead` of redis/src/anet.c pass on.
use homemade.Prelude.{
  ℕ, zero, suc, ◌+◌, ◌-◌, ◌≤◌, ◌<◌, ◌≡◌, refl, sym, ap, ◌∙◌, Option, none, some, [], ◌∷◌, ◌++◌,
  arith, ◌⊎◌, inl, inr, length, take, drop, ◌==◌, true, Bool-cases, Option-cases, append_assoc,
  append-nil, take_add, length-drop, length-append,
}
use homemade.Redis.Object.{Bytes}
use homemade.Net.System.{Streams}
use homemade.Net.Streams.{write_loop, anet_write, read_loop, anet_read}

-- What a write may do to the bytes that a descriptor has taken.
abbrev pub Wrote : Bytes → Bytes → Option ℕ → Bytes → Type 0
Wrote bytes before none after = after ≡ before
Wrote bytes before (some k) after = (k ≤ length bytes) × (after ≡ before ++ take k bytes)

-- What a read may do to the bytes that a descriptor has to give.
abbrev pub HasRead : ℕ → Bytes → Option Bytes → Bytes → Type 0
HasRead count before none after = after ≡ before
HasRead count before (some chunk) after = (length chunk ≤ count) × (before ≡ chunk ++ after)

module _ {World : Type 0} (io : Streams World) (fd : ℕ) where
  -- `write` appends to what was sent, and `read` takes from the front of what waits.
  abbrev pub WritesTo : (World → Bytes) → Type 0
  WritesTo sent =
      (bytes : Bytes) (w : World)
      → Wrote bytes (sent w) (io.write fd bytes w).0 (sent (io.write fd bytes w).1)

  abbrev pub ReadsFrom : (World → Bytes) → Type 0
  ReadsFrom waiting =
      (count : ℕ) (w : World)
      → HasRead count (waiting w) (io.read fd count w).0 (waiting (io.read fd count w).1)

-- A run that ends, with the first `k` of the bytes sent: it returns -1, or the count of them.
pub record Delivers {World : Type 0} (sent : World → Bytes) (run : Option (Option ℕ × World))
    (bytes : Bytes) (totlen : ℕ) (w : World) : Type 0 where
  pub result : Option ℕ
  pub world : World
  pub k : ℕ
  pub ends : run ≡ some (result, world)
  pub within : k ≤ length bytes
  pub appended : sent world ≡ sent w ++ take k bytes
  pub counted : (result ≡ none) ⊎ (result ≡ some (totlen + k))

module _ {World : Type 0} (io : Streams World) (fd : ℕ) (sent : World → Bytes)
    (law : WritesTo io fd sent) where
  nothing :
      (r : Option ℕ) (bytes : Bytes) (totlen : ℕ) (w w' : World)
      → (r ≡ none) ⊎ (r ≡ some totlen)
      → sent w' ≡ sent w
      → Delivers sent (some (r, w')) bytes totlen w
  nothing r bytes totlen w w' how same = record {
    result = r;
    world = w';
    k = 0;
    ends = refl;
    within = omega arith;
    appended = same ∙ sym (append-nil (sent w));
    counted = let e : totlen + 0 ≡ totlen = omega arith in rw e how;
  }

  -- Some bytes, and then what is left of them.
  onward :
      (run : Option (Option ℕ × World)) (n : ℕ) (bytes : Bytes) (totlen : ℕ) (w w' : World)
      → n ≤ length bytes
      → sent w' ≡ sent w ++ take n bytes
      → Delivers sent run (drop n bytes) (totlen + n) w'
      → Delivers sent run bytes totlen w
  onward run n bytes totlen w w' le more d = record {
    result = d.result;
    world = d.world;
    k = n + d.k;
    ends = d.ends;
    within = omega (arith, d.within, length-drop n bytes);
    appended =
        d.appended
        ∙ ap (λ xs. xs ++ take d.k (drop n bytes)) more
        ∙ append_assoc (sent w) (take n bytes) (take d.k (drop n bytes))
        ∙ ap (λ xs. sent w ++ xs) (take_add n d.k bytes);
    counted = let e : totlen + (n + d.k) ≡ (totlen + n) + d.k = omega arith in rw e d.counted;
  }

  write_loop-Delivers :
      (fuel : ℕ) (bytes : Bytes) (totlen : ℕ) (w : World)
      → length bytes < fuel
      → Delivers sent (write_loop io fuel fd bytes totlen w) bytes totlen w
  unfolding write_loop
  write_loop-Delivers zero bytes totlen w h = absurd (omega arith)
  write_loop-Delivers (suc fuel) bytes totlen w h = elim (Bool-cases (length bytes == 0)) [
    | inl done ↦ rw done (nothing (some totlen) bytes totlen w w (inr refl) refl)
    | inr more ↦ elim (Option-cases (io.write fd bytes w).0) [
      | inl failed ↦
          let same : sent (io.write fd bytes w).1 ≡ sent w = rw failed at (law bytes w) in
          rw (more, failed) (nothing none bytes totlen w _ (inl refl) same)
      | inr (n, wrote) ↦
          let did : Wrote bytes (sent w) (some n) (sent (io.write fd bytes w).1) =
            rw wrote at (law bytes w) in
          let rest = λ (p : 0 < n).
            write_loop-Delivers fuel (drop n bytes) (totlen + n) (io.write fd bytes w).1
              (omega (arith, length-drop n bytes, did.0)) in
          elim (Bool-cases (n == 0)) [
            | inl none_taken ↦
                let zero_taken : n ≡ 0 = ground (arith, none_taken) in
                let same : sent (io.write fd bytes w).1 ≡ sent w =
                  (rw zero_taken at did.1) ∙ append-nil (sent w) in
                rw (more, wrote, none_taken)
                  (nothing (some totlen) bytes totlen w _ (inr refl) same)
            | inr taken ↦
                rw (more, wrote, taken)
                  (onward _ n bytes totlen w (io.write fd bytes w).1 did.0 did.1
                    (rest (ground (arith, taken))))
          ]
    ]
  ]

  -- Where a `write` appends to what was sent some of the bytes that it is given, from the front, or fails
  -- and appends none: `anetWrite` ends, and it has sent the bytes up to some point, once and in order. It
  -- returns their number, or -1.
  pub anet_write-Delivers :
      (bytes : Bytes) (w : World) → Delivers sent (anet_write io fd bytes w) bytes 0 w
  unfolding anet_write
  anet_write-Delivers bytes w = write_loop-Delivers (suc (length bytes)) bytes 0 w (omega arith)

-- A run that ends, with the first `k` bytes that waited taken: it returns them, or -1.
pub record Receives {World : Type 0} (waiting : World → Bytes) (run : Option (Option Bytes × World))
    (count : ℕ) (buf : Bytes) (w : World) : Type 0 where
  pub result : Option Bytes
  pub world : World
  pub got : Bytes
  pub ends : run ≡ some (result, world)
  pub within : length got ≤ count
  pub taken : waiting w ≡ got ++ waiting world
  pub handed : (result ≡ none) ⊎ (result ≡ some (buf ++ got))

module _ {World : Type 0} (io : Streams World) (fd : ℕ) (waiting : World → Bytes)
    (law : ReadsFrom io fd waiting) where
  no_more :
      (r : Option Bytes) (count : ℕ) (buf : Bytes) (w w' : World)
      → (r ≡ none) ⊎ (r ≡ some buf)
      → waiting w ≡ waiting w'
      → Receives waiting (some (r, w')) count buf w
  no_more r count buf w w' how same = record {
    result = r;
    world = w';
    got = [];
    ends = refl;
    within = omega arith;
    taken = same;
    handed = rw (append-nil buf) how;
  }

  read_on :
      (run : Option (Option Bytes × World)) (chunk : Bytes) (count : ℕ) (buf : Bytes) (w w' : World)
      → length chunk ≤ count
      → waiting w ≡ chunk ++ waiting w'
      → Receives waiting run (count - length chunk) (buf ++ chunk) w'
      → Receives waiting run count buf w
  read_on run chunk count buf w w' le more d = record {
    result = d.result;
    world = d.world;
    got = chunk ++ d.got;
    ends = d.ends;
    within = omega (arith, d.within, length-append chunk d.got);
    taken =
        more ∙ ap (λ xs. chunk ++ xs) d.taken ∙ sym (append_assoc chunk d.got (waiting d.world));
    handed = rw (← append_assoc buf chunk d.got) d.handed;
  }

  read_loop-Receives :
      (fuel count : ℕ) (buf : Bytes) (w : World)
      → count < fuel
      → Receives waiting (read_loop io fuel fd count buf w) count buf w
  unfolding read_loop
  read_loop-Receives zero count buf w h = absurd (omega arith)
  read_loop-Receives (suc fuel) count buf w h = elim (Bool-cases (count == 0)) [
    | inl done ↦ rw done (no_more (some buf) count buf w w (inr refl) refl)
    | inr more ↦ elim (Option-cases (io.read fd count w).0) [
      | inl failed ↦
          let same : waiting (io.read fd count w).1 ≡ waiting w = rw failed at (law count w) in
          rw (more, failed) (no_more none count buf w _ (inl refl) (sym same))
      | inr (chunk, came) ↦
          let did : HasRead count (waiting w) (some chunk) (waiting (io.read fd count w).1) =
            rw came at (law count w) in
          let rest = λ (p : 0 < length chunk).
            read_loop-Receives fuel (count - length chunk) (buf ++ chunk) (io.read fd count w).1
              (omega (arith, did.0)) in
          elim (Bool-cases (length chunk == 0)) [
            | inl end_of_file ↦
                let same = did.1 ∙ no_bytes chunk (waiting (io.read fd count w).1) end_of_file in
                rw (more, came, end_of_file) (no_more (some buf) count buf w _ (inr refl) same)
            | inr some_bytes ↦
                rw (more, came, some_bytes)
                  (read_on _ chunk count buf w (io.read fd count w).1 did.0 did.1
                    (rest (ground (arith, some_bytes))))
          ]
    ]
  ]
    where
      no_bytes : (chunk xs : Bytes) → (length chunk == 0) ≡ true → chunk ++ xs ≡ xs
      no_bytes [] xs p = refl
      no_bytes (x ∷ chunk) xs p = absurd (ground (arith, p))

  -- Where a `read` takes bytes from the front of what waits, no more than it is asked for, or fails and
  -- takes none: `anetRead` ends, and it has taken the bytes up to some point, at most `count` of them. It
  -- returns them in their order, or -1.
  pub anet_read-Receives :
      (count : ℕ) (w : World) → Receives waiting (anet_read io fd count w) count [] w
  unfolding anet_read
  anet_read-Receives count w = read_loop-Receives (suc count) count [] w (omega arith)
