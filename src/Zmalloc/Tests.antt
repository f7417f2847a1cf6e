-- ===== src/Zmalloc/Tests.antt =====
-- A run of redis/src/zmalloc.c: a block that grows, and first that is freed.
use homemade.Prelude.{refl, [], ◌∷◌}
use homemade.Zmalloc.{
  Memory, size_at, without, zmalloc, zrealloc, zrealloc_found, zfree, IsCounted, malloc_step,
  realloc_step, free_step, Reach, here, next, Reach-IsCounted,
}

abbrev empty : Memory
empty = record { blocks = []; used_memory = 0 }

abbrev first : Memory
first = record { blocks = (64, 10) ∷ []; used_memory = 18 }

abbrev two : Memory
two = record { blocks = (128, 5) ∷ (64, 10) ∷ []; used_memory = 31 }

abbrev grown : Memory
grown = record { blocks = (256, 50) ∷ (128, 5) ∷ []; used_memory = 71 }

abbrev left : Memory
left = record { blocks = (256, 50) ∷ []; used_memory = 58 }

run : Reach empty left
unfolding zmalloc zrealloc zrealloc_found zfree size_at without
run =
    next
      (next (next (next here (malloc_step 64 10 64 refl)) (malloc_step 128 5 128 refl))
        (realloc_step 256 64 50 256 refl))
      (free_step 128 refl)

Reach-IsCounted_example : IsCounted left
Reach-IsCounted_example = Reach-IsCounted {m = empty} {n = left} refl run
