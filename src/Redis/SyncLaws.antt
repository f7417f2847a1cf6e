-- ===== src/Redis/SyncLaws.antt =====
-- `syncWrite` of redis/src/redis.c sends what it is given, and ends.
use homemade.Prelude.{
  ℕ, zero, suc, ◌+◌, ◌-◌, ◌≤◌, ◌<◌, ◌≡◌, refl, sym, ap, ◌∙◌, Bool, true, false, Option, none, some,
  [], ◌∷◌, ◌++◌, arith, ◌⊎◌, inl, inr, length, take, drop, ltb, Bool-cases, Option-cases,
  append_assoc, append-nil, take_add, length-drop, if◌then◌else◌,
}
use homemade.Prelude.Int.{ℤ, pos, negsuc, ltb_ℤ}
use homemade.Redis.Object.{Bytes}
use homemade.Ae.Loop.{fd_isset, has_bit, Sets}
use homemade.Ae.Wait.{is_set, wait_sets, ae_wait, wait_result, remask}
use homemade.Net.System.{M, ◌>>=◌, Streams}
use homemade.Net.StreamLaws.{Wrote}
use homemade.Redis.Sync.{in_time, end_round, write_if, sync_write_loop, sync_write}

-- What `select` answers to a wait of a second for a descriptor to be writable: an error, the end of the time,
-- with the clock a second on, or a set with the descriptor.
abbrev pub Answers : ℕ → ℤ × Sets → ℕ → ℕ → Type 0
Answers fd (ret, sets) before after =
    (ret ≡ negsuc 0)
    ⊎ ((ret ≡ pos 0) × (before + 1 ≤ after))
    ⊎ ((n : ℕ) × (ret ≡ pos (suc n)) × (fd_isset fd sets.wfds ≡ true))

-- A descriptor that takes bytes: `write` takes one at least, in their order, or fails; nothing else changes
-- what was sent, and the clock never goes back.
pub record Takes {World : Type 0} (io : Streams World) (fd : ℕ) (sent : World → Bytes)
    (clock : World → ℕ) : Type 0 where
  pub reads_clock : (w : World) → (io.time w).0 ≡ clock (io.time w).1
  pub time_on : (w : World) → clock w ≤ clock (io.time w).1
  pub time_sent : (w : World) → sent (io.time w).1 ≡ sent w
  pub select_on : (s : Sets) (ms : ℕ) (w : World) → clock w ≤ clock (io.select s ms w).1
  pub select_sent : (s : Sets) (ms : ℕ) (w : World) → sent (io.select s ms w).1 ≡ sent w
  pub select_answers :
      (w : World)
      → Answers fd
          (io.select (wait_sets fd 2) 1000 w).0
          (clock w)
          (clock (io.select (wait_sets fd 2) 1000 w).1)
  pub write_on : (bytes : Bytes) (w : World) → clock w ≤ clock (io.write fd bytes w).1
  pub write_sent :
      (bytes : Bytes) (w : World)
      → Wrote bytes (sent w) (io.write fd bytes w).0 (sent (io.write fd bytes w).1)
  pub write_some :
      (x : ℕ) (bytes : Bytes) (k : ℕ) (w : World) → (io.write fd (x ∷ bytes) w).0 ≡ some k → 1 ≤ k

-- A run that ends, with the first `k` of the bytes sent: it returns the size once all are sent, or -1.
pub record SendsAll {World : Type 0} (sent : World → Bytes) (run : Option (Option ℕ × World))
    (bytes : Bytes) (size : ℕ) (w : World) : Type 0 where
  pub result : Option ℕ
  pub world : World
  pub k : ℕ
  pub ends : run ≡ some (result, world)
  pub appended : sent world ≡ sent w ++ take k bytes
  pub all_or_error : (result ≡ none) ⊎ ((result ≡ some size) × (k ≡ length bytes))

writable_bit : (a b : Bool) → has_bit ((if a then 1 else 0) + 2 + (if b then 4 else 0)) 2 ≡ true
writable_bit true true = refl
writable_bit true false = refl
writable_bit false true = refl
writable_bit false false = refl

-- A wait that does not find the descriptor writable takes a second.
wait_result_lem :
    (fd : ℕ) (r : ℤ × Sets) (before after : ℕ)
    → Answers fd r before after
    → is_set (wait_result fd r) 2 ≡ false
    → before + 1 ≤ after
unfolding wait_result remask
wait_result_lem fd (ret, sets) before after (inl failed) h =
    absurd (let e : true ≡ false = rw failed at h in cc)
wait_result_lem fd (ret, sets) before after (inr (inl late)) h = late.1
wait_result_lem fd (ret, sets) before after (inr (inr (n, many, there))) h =
    let positive : ltb_ℤ (pos 0) (pos (suc n)) ≡ true = ground arith in
    let e = rw (many, positive, there) at h in
    absurd (cc (writable_bit (fd_isset fd sets.rfds) (fd_isset fd sets.efds)))

module _ {World : Type 0} {io : Streams World} {fd : ℕ} {sent : World → Bytes} {clock : World → ℕ}
    (law : Takes io fd sent clock) where
  ends_now :
      (result : Option ℕ) (k size : ℕ) (bytes : Bytes) (w w' : World)
      → sent w' ≡ sent w ++ take k bytes
      → (result ≡ none) ⊎ ((result ≡ some size) × (k ≡ length bytes))
      → SendsAll sent (some (result, w')) bytes size w
  ends_now result k size bytes w w' more how = record {
    result = result;
    world = w';
    k = k;
    ends = refl;
    appended = more;
    all_or_error = how;
  }

  -- Some bytes, and then what is left of them.
  sends_on :
      (run : Option (Option ℕ × World)) (n size : ℕ) (bytes : Bytes) (w w' : World)
      → n ≤ length bytes
      → sent w' ≡ sent w ++ take n bytes
      → SendsAll sent run (drop n bytes) size w'
      → SendsAll sent run bytes size w
  sends_on run n size bytes w w' le more d = record {
    result = d.result;
    world = d.world;
    k = n + d.k;
    ends = d.ends;
    appended =
        d.appended
        ∙ ap (λ xs. xs ++ take d.k (drop n bytes)) more
        ∙ append_assoc (sent w) (take n bytes) (take d.k (drop n bytes))
        ∙ ap (λ xs. sent w ++ xs) (take_add n d.k bytes);
    all_or_error = elim d.all_or_error [
      | inl e ↦ inl e
      | inr (e, all) ↦ inr (e, omega (arith, all, length-drop n bytes))
    ];
  }

  -- The end of a round: the clock is past the deadline, or the rest of the loop follows.
  end_round-SendsAll :
      (deadline size : ℕ) (bytes : Bytes) (rest : Bytes → M World (Option ℕ)) (w : World)
      → ((v : World)
          → clock w ≤ clock v
          → clock v ≤ deadline
          → sent v ≡ sent w
          → SendsAll sent (rest bytes v) bytes size v)
      → SendsAll sent (end_round io deadline (some bytes) rest w) bytes size w
  unfolding end_round in_time
  end_round-SendsAll deadline size bytes rest w more =
      let v = (io.time w).1 in
      let same = law.time_sent w in
      elim (Bool-cases (ltb deadline (io.time w).0)) [
        | inl late ↦
            rw (late, in_time)
              (ends_now none 0 size bytes w v (same ∙ sym (append-nil (sent w))) (inl refl))
        | inr soon ↦
            let d = more v (law.time_on w) (ground (arith, soon, law.reads_clock w)) same in
            rw (soon, in_time)
              (sends_on (rest bytes v) 0 size bytes w v (omega arith)
                (same ∙ sym (append-nil (sent w))) d)
      ]

  -- The rounds that are left: each byte and each second to the deadline may take one.
  write_if-SendsAll :
      (b : Bool) (fuel deadline size x : ℕ) (bytes : Bytes) (w : World)
      → (b ≡ false → length bytes + 1 + ((deadline + 1) - clock w) < fuel)
      → length bytes + ((deadline + 1) - clock w) < fuel
      → ((left : Bytes) (v : World)
          → clock v ≤ deadline
          → length left + ((deadline + 1) - clock v) < fuel
          → SendsAll sent (sync_write_loop io fd fuel deadline size left v) left size v)
      → SendsAll sent
          ((write_if io fd b (x ∷ bytes) >>= λ left.
              end_round io deadline left (sync_write_loop io fd fuel deadline size))
            w)
          (x ∷ bytes)
          size
          w
  unfolding write_if end_round
  write_if-SendsAll false fuel deadline size x bytes w idle busy rest =
      end_round-SendsAll deadline size (x ∷ bytes) (sync_write_loop io fd fuel deadline size) w
        (λ v on within same. rest (x ∷ bytes) v within (omega (arith, idle refl)))
  write_if-SendsAll true fuel deadline size x bytes w idle busy rest =
      elim (Option-cases (io.write fd (x ∷ bytes) w).0) [
        | inl failed ↦
            let same : sent (io.write fd (x ∷ bytes) w).1 ≡ sent w =
              rw failed at (law.write_sent (x ∷ bytes) w) in
            rw failed
              (ends_now none 0 size (x ∷ bytes) w _ (same ∙ sym (append-nil (sent w))) (inl refl))
        | inr (n, wrote) ↦
            let v = (io.write fd (x ∷ bytes) w).1 in
            let did : Wrote (x ∷ bytes) (sent w) (some n) (sent v) =
              rw wrote at (law.write_sent (x ∷ bytes) w) in
            let on = law.write_on (x ∷ bytes) w in
            let one = law.write_some x bytes n w wrote in
            let left = drop n (x ∷ bytes) in
            rw wrote (
              sends_on _ n size (x ∷ bytes) w v did.0 did.1 (
                end_round-SendsAll deadline size left (sync_write_loop io fd fuel deadline size) v
                  (λ u later within same.
                    rest left u within (omega (arith, length-drop n (x ∷ bytes), did.0)))))
      ]

  sync_write_loop-SendsAll :
      (fuel deadline size : ℕ) (bytes : Bytes) (w : World)
      → clock w ≤ deadline
      → length bytes + ((deadline + 1) - clock w) < fuel
      → SendsAll sent (sync_write_loop io fd fuel deadline size bytes w) bytes size w
  unfolding sync_write_loop ae_wait
  sync_write_loop-SendsAll zero deadline size bytes w soon h = absurd (omega arith)
  sync_write_loop-SendsAll (suc fuel) deadline size [] w soon h =
      ends_now (some size) 0 size [] w w (sym (append-nil (sent w))) (inr (refl, refl))
  sync_write_loop-SendsAll (suc fuel) deadline size (x ∷ bytes) w soon h =
      let r = io.select (wait_sets fd 2) 1000 w in
      let v = r.1 in
      let on = law.select_on (wait_sets fd 2) 1000 w in
      sends_on _ 0 size (x ∷ bytes) w v (omega arith)
        (law.select_sent (wait_sets fd 2) 1000 w ∙ sym (append-nil (sent w)))
        (write_if-SendsAll (is_set (wait_result fd r.0) 2) fuel deadline size x bytes v
          (λ idle.
            let later = wait_result_lem fd r.0 (clock w) (clock v) (law.select_answers w) idle in
            omega arith)
          (omega arith)
          (λ left u within fits. sync_write_loop-SendsAll fuel deadline size left u within fits))

  -- For a descriptor that takes bytes, where a wait of a second that finds nothing takes a second: `syncWrite`
  -- ends. It returns the size where it has sent all bytes, in their order, and where it returns -1 it has
  -- sent the bytes up to some point.
  pub sync_write-SendsAll :
      (bytes : Bytes) (timeout : ℕ) (w : World)
      → SendsAll sent (sync_write io fd bytes timeout w) bytes (length bytes) w
  unfolding sync_write
  sync_write-SendsAll bytes timeout w =
      let v = (io.time w).1 in
      let start = law.reads_clock w in
      sends_on _ 0 (length bytes) bytes w v (omega arith)
        (law.time_sent w ∙ sym (append-nil (sent w)))
        (sync_write_loop-SendsAll (length bytes + timeout + 4) ((io.time w).0 + timeout + 1)
          (length bytes) bytes v (omega arith) (omega arith))
