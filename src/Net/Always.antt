-- ===== src/Net/Always.antt =====
-- A postcondition of the computations on a world, for whatever they come to.
use homemade.Prelude.{◌≡◌, Option, none, some, Option-cases, inl, inr}
use homemade.Net.System.{M, ◌>>=◌}

abbrev pub Always : {World A : Type 0} → (A → Type 0) → Option (A × World) → Type 0
Always P none = Unit {0}
Always P (some (a, w)) = P a

pub Always-bind :
    {World A B : Type 0} (P : B → Type 0) (m : M World A) (f : A → M World B) (w : World)
    → ((a : A) (v : World) → Always P (f a v))
    → Always P ((m >>= f) w)
Always-bind P m f w h = elim (Option-cases (m w)) [
  | inl stopped ↦ rw (stopped, Always) tt
  | inr (r, went) ↦ rw (went, Always) (h r.0 r.1)
]

pub Always-some :
    {World A : Type 0} (P : A → Type 0) (run : Option (A × World)) (a : A) (w : World)
    → Always P run
    → run ≡ some (a, w)
    → P a
Always-some P run a w h e = rw e at h

-- The postcondition of the first part serves the second.
pub Always-then :
    {World A B : Type 0} (Q : A → Type 0) (P : B → Type 0) (m : M World A) (f : A → M World B)
    (w : World)
    → Always Q (m w)
    → ((a : A) (v : World) → Q a → Always P (f a v))
    → Always P ((m >>= f) w)
Always-then Q P m f w q h = elim (Option-cases (m w)) [
  | inl stopped ↦ rw (stopped, Always) tt
  | inr (r, went) ↦ rw (went, Always) (h r.0 r.1 (Always-some Q (m w) r.0 r.1 q went))
]
