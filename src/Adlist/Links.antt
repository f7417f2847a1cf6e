-- ===== src/Adlist/Links.antt =====
-- Lists of linked nodes in the heap.
use homemade.Prelude.{
  ℕ, ◌≡◌, ◌≢◌, refl, ◌∙◌, sym, Bool, true, false, ◌||◌, Option, none, some, List, [], ◌∷◌, ◌++◌,
  arith, ◌==◌, Bool-cases, inl, inr,
}
use homemade.Adlist.Heap.{
  Address, null, Node, linked, Heap, assign, fetch, set_next, set_prev, free,
}

-- What a list stands for: the address and the value of each node, in order.
abbrev pub Row : Type 0
Row = List (Address × ℕ)

abbrev pub covers : Address → Row → Bool
covers a [] = false
covers a ((p, v) ∷ cs) = (a == p) || covers a cs

-- The address of the first cell, and of the last one.
abbrev pub first : Row → Address → Address
first [] q = q
first ((p, v) ∷ cs) q = p

abbrev pub last : Address → Row → Address
last p [] = p
last p ((q, v) ∷ cs) = last q cs

-- The cells are distinct nodes, linked forth and back, between `prv` and `nxt`.
abbrev pub Links : Heap → Address → Row → Address → Type 0
Links h prv [] nxt = Unit
Links h prv ((p, v) ∷ cs) nxt =
    (p ≢ null)
    × (h p ≡ some (linked prv (first cs nxt) v))
    × (covers p cs ≡ false)
    × Links h p cs nxt

pub frame :
    (h g : Heap) (prv : Address) (cs : Row) (nxt : Address)
    → Links h prv cs nxt
    → ((a : Address) → covers a cs ≡ true → g a ≡ h a)
    → Links g prv cs nxt
frame h g prv [] nxt l same = tt
frame h g prv ((p, v) ∷ cs) nxt (ne, here, out, l) same =
    (ne, same p (ground arith) ∙ here, out, frame h g p cs nxt l λ a i. same a (ground arith))

pub covers-last : (p : Address) (v : ℕ) (cs : Row) → covers (last p cs) ((p, v) ∷ cs) ≡ true
covers-last p v [] = ground arith
covers-last p v ((q, w) ∷ cs) = ground (arith, covers-last q w cs)

pub covers-append : (a : Address) (xs ys : Row) → covers a (xs ++ ys) ≡ (covers a xs || covers a ys)
covers-append a [] ys = refl
covers-append a ((p, v) ∷ xs) ys = ground (arith, covers-append a xs ys)

pub last-append : (p : Address) (xs ys : Row) → last p (xs ++ ys) ≡ last (last p xs) ys
last-append p [] ys = refl
last-append p ((q, v) ∷ xs) ys = last-append q xs ys

pub first-append : (xs ys : Row) (q : Address) → first (xs ++ ys) q ≡ first xs (first ys q)
first-append [] ys q = refl
first-append ((p, v) ∷ xs) ys q = refl

-- The two parts of a list have no node in common.
abbrev pub Apart : Row → Row → Type 0
Apart xs ys = (a : Address) → covers a xs ≡ true → covers a ys ≡ false

pub Links-split :
    (h : Heap) (prv : Address) (xs ys : Row) (nxt : Address)
    → Links h prv (xs ++ ys) nxt
    → Links h prv xs (first ys nxt) × Links h (last prv xs) ys nxt × Apart xs ys
Links-split h prv [] ys nxt l = (tt, l, λ a i. absurd (ground arith))
Links-split h prv ((p, v) ∷ xs) ys nxt (ne, here, out, l) =
    let (left, right, apart) = Links-split h p xs ys nxt l in
    (
      (ne, rw (sym (first-append xs ys nxt)) here, ground (arith, covers-append p xs ys), left),
      right,
      λ a i. ground (arith, covers-append p xs ys, apart a),
    )

pub Links-join :
    (h : Heap) (prv : Address) (xs ys : Row) (nxt : Address)
    → Links h prv xs (first ys nxt)
    → Links h (last prv xs) ys nxt
    → Apart xs ys
    → Links h prv (xs ++ ys) nxt
Links-join h prv [] ys nxt l r apart = r
Links-join h prv ((p, v) ∷ xs) ys nxt (ne, here, out, l) r apart = (
  ne,
  rw (first-append xs ys nxt) here,
  ground (arith, covers-append p xs ys, apart p),
  Links-join h p xs ys nxt l r (λ a i. apart a (ground arith)),
)

pub differ :
    (p q : Address) (cs : Row) → covers p cs ≡ false → covers q cs ≡ true → (p == q) ≡ false
differ p q cs out i = elim (Bool-cases (p == q)) [
  | inl same ↦ absurd (let e : p ≡ q = ground arith in let i' = rw (sym e) at i in cc)
  | inr other ↦ other
]

-- The `next` of the last node, written.
pub Links-set_last :
    (h : Heap) (prv p : Address) (v : ℕ) (cs : Row) (nxt r : Address)
    → Links h prv ((p, v) ∷ cs) nxt
    → (n : Node) × (last p cs ≢ null)
      × (h (last p cs) ≡ some n)
      × Links (assign h (last p cs) (some (record n { next = r }))) prv ((p, v) ∷ cs) r
unfolding assign
Links-set_last h prv p v [] nxt r (ne, here, out, l) =
    (linked prv nxt v, ne, here, (ne, ground arith, refl, tt))
Links-set_last h prv p v ((q, w) ∷ cs) nxt r (ne, here, out, l) =
    let (n, ne', there, l') = Links-set_last h p q w cs nxt r l in
    let other : (p == last q cs) ≡ false =
      differ p (last q cs) ((q, w) ∷ cs) out (covers-last q w cs) in
    (n, ne', there, (ne, rw other here, out, l'))

-- The `prev` of the first node, written.
pub Links-set_first :
    (h : Heap) (prv p : Address) (v : ℕ) (cs : Row) (nxt r : Address)
    → Links h prv ((p, v) ∷ cs) nxt
    → Links (assign h p (some (linked r (first cs nxt) v))) r ((p, v) ∷ cs) nxt
unfolding assign
Links-set_first h prv p v cs nxt r (ne, here, out, l) = (
  ne,
  ground arith,
  out,
  frame h (assign h p (some (linked r (first cs nxt) v))) p cs nxt l
      (λ a i. let o : (a == p) ≡ false = differ' a p cs i out in rw o refl),
)
  where
    differ' :
        (a p : Address) (cs : Row) → covers a cs ≡ true → covers p cs ≡ false → (a == p) ≡ false
    differ' a p cs i out = let o = differ p a cs out i in ground arith

-- A write beside the list.
pub frame-assign :
    (h : Heap) (prv : Address) (cs : Row) (nxt a : Address) (c : Option Node)
    → Links h prv cs nxt
    → covers a cs ≡ false
    → Links (assign h a c) prv cs nxt
unfolding assign
frame-assign h prv cs nxt a c l out =
    frame h (assign h a c) prv cs nxt l
      (λ b i. let o = differ a b cs out i in let o' : (b == a) ≡ false = ground arith in rw o' refl)

-- The rules of the heap's operations.
module _ (h : Heap) (p : Address) (n : Node) (ne : p ≢ null) (here : h p ≡ some n) where
  not_null : (p == null) ≡ false
  not_null = ground arith

  pub fetch-eq : fetch p h ≡ some (n, h)
  unfolding fetch
  fetch-eq = rw (not_null, here) refl

  pub set_next-eq :
      (q : Address) → set_next p q h ≡ some (tt, assign h p (some (record n { next = q })))
  unfolding set_next
  set_next-eq q = rw fetch-eq refl

  pub set_prev-eq :
      (q : Address) → set_prev p q h ≡ some (tt, assign h p (some (record n { prev = q })))
  unfolding set_prev
  set_prev-eq q = rw fetch-eq refl

  pub free-eq : free p h ≡ some (tt, assign h p none)
  unfolding free
  free-eq = rw fetch-eq refl

pub write_self : (h : Heap) (p : Address) (c : Option Node) → assign h p c p ≡ c
unfolding assign
write_self h p c = ground arith

pub write_other :
    (h : Heap) (p a : Address) (c : Option Node) → (a == p) ≡ false → assign h p c a ≡ h a
unfolding assign
write_other h p a c o = rw o refl
