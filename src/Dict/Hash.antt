-- ===== src/Dict/Hash.antt =====
-- The hash functions of redis/src/dict.c on `unsigned int`, 32 bits wide. Shifts and complements are
-- written as arithmetic.
use Prim.Native.Nat.{bit_xor}
use homemade.Prelude.{ℕ, zero, suc, ◌+◌, ◌-◌, ◌*◌, ◌/◌, ◌%◌, List, [], ◌∷◌}

-- `key << n`, for `p` the power 2 ^ n
abbrev shl32 : ℕ → ℕ → ℕ
shl32 key p = (key * p) % 4294967296

abbrev not32 : ℕ → ℕ
not32 x = 4294967295 - x

abbrev add32 : ℕ → ℕ → ℕ
add32 a b = (a + b) % 4294967296

-- `dictIntHashFunction`
unfoldable pub int_hash : ℕ → ℕ
int_hash key =
    let a = add32 key (not32 (shl32 key 32768)) in
    let b = bit_xor a (a / 1024) in
    let c = add32 b (shl32 b 8) in
    let d = bit_xor c (c / 64) in let e = add32 d (not32 (shl32 d 2048)) in bit_xor e (e / 65536)

-- `dictIdentityHashFunction`
unfoldable pub identity_hash : ℕ → ℕ
identity_hash key = key

unfoldable pub gen_hash_loop : ℕ → List ℕ → ℕ → ℕ
gen_hash_loop hash buf zero = hash
gen_hash_loop hash [] (suc len) = hash
gen_hash_loop hash (c ∷ buf) (suc len) =
    gen_hash_loop (add32 (add32 (shl32 hash 32) hash) c) buf len

-- `dictGenHashFunction` over the first `len` bytes of `buf`, which has at least as many
unfoldable pub gen_hash : List ℕ → ℕ → ℕ
unfolding gen_hash_loop
gen_hash buf len = gen_hash_loop 5381 buf len
