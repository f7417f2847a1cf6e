-- ===== src/Adlist/Laws.antt =====
-- What the functions of redis/src/adlist.c do to the list that they are given.
use homemade.Prelude.{
  ℕ, ◌%◌, ◌≡◌, ◌≢◌, refl, sym, ◌∙◌, true, false, none, some, List, [], ◌∷◌, ◌++◌, arith, ◌==◌,
  if◌then◌else◌, Bool-cases, inl, inr, length, inc32, dec32, length-append,
}
use homemade.Adlist.Heap.{Address, null, linked, Heap, assign}
use homemade.Adlist.Links.{
  Row, covers, first, last, Links, Apart, frame, frame-assign, covers-last, last-append,
  first-append, Links-split, Links-join, differ, Links-set_last, Links-set_first, fetch-eq,
  set_next-eq, set_prev-eq, free-eq, write_self, write_other,
}
use homemade.Adlist.Ops.{
  Handle, list_add_node_head, list_add_node_tail, unlink_prev, unlink_next, list_del_node,
}

-- The handle stands for the cells, which the heap links.
pub record IsList (h : Heap) (l : Handle) (cs : Row) : Type 0 where
  pub links : Links h null cs null
  pub head : l.head ≡ first cs null
  pub tail : l.tail ≡ last null cs
  pub len : l.len ≡ length cs % 4294967296

abbrev pub values : Row → List ℕ
values [] = []
values ((p, v) ∷ cs) = v ∷ values cs

-- With an unused address, `listAddNodeHead` puts the value in front of the list.
pub list_add_node_head-IsList :
    (h : Heap) (l : Handle) (cs : Row) (fresh : Address) (value : ℕ)
    → IsList h l cs
    → fresh ≢ null
    → covers fresh cs ≡ false
    → (l' : Handle) × (g : Heap) × (list_add_node_head fresh l value h ≡ some (some l', g))
      × IsList g l' ((fresh, value) ∷ cs)
unfolding list_add_node_head
list_add_node_head-IsList h l [] fresh value is ne out =
    let given : (fresh == null) ≡ false = ground arith in
    let empty : (l.head == null) ≡ true = ground (arith, is.head) in
    (
      record l { head = fresh; tail = fresh; len = inc32 l.len },
      assign h fresh (some (linked null l.head value)),
      rw (given, empty) refl,
      record {
        links = (ne, rw is.head (write_self _ _ _), refl, tt);
        head = refl;
        tail = refl;
        len = omega (arith, is.len);
      },
    )
list_add_node_head-IsList h l ((p, v) ∷ cs) fresh value is ne out =
    let given : (fresh == null) ≡ false = ground arith in
    let (ne', here, out', rest) = is.links in
    let full : (l.head == null) ≡ false = ground (arith, is.head) in
    let g = assign h fresh (some (linked null p value)) in
    let beside =
      frame-assign h null ((p, v) ∷ cs) null fresh (some (linked null p value)) is.links out in
    let here' : g p ≡ some (linked null (first cs null) v) = beside.1 in
    let n = linked null (first cs null) v in
    let g' = assign g p (some (linked fresh (first cs null) v)) in
    let other : (fresh == p) ≡ false = ground arith in
    (
      record l { head = fresh; len = inc32 l.len },
      g',
      rw (given, full, is.head, set_prev-eq g p n ne' here' fresh) refl,
      record {
        links = (
          ne,
          write_other g p fresh _ other ∙ write_self h fresh _,
          out,
          Links-set_first g null p v cs null fresh beside,
        );
        head = refl;
        tail = is.tail;
        len = omega (arith, is.len);
      },
    )

-- With an unused address, `listAddNodeTail` puts the value at the end of the list.
pub list_add_node_tail-IsList :
    (h : Heap) (l : Handle) (cs : Row) (fresh : Address) (value : ℕ)
    → IsList h l cs
    → fresh ≢ null
    → covers fresh cs ≡ false
    → (l' : Handle) × (g : Heap) × (list_add_node_tail fresh l value h ≡ some (some l', g))
      × IsList g l' (cs ++ (fresh, value) ∷ [])
unfolding list_add_node_tail
list_add_node_tail-IsList h l [] fresh value is ne out =
    let given : (fresh == null) ≡ false = ground arith in
    let empty : (l.tail == null) ≡ true = ground (arith, is.tail) in
    (
      record l { head = fresh; tail = fresh; len = inc32 l.len },
      assign h fresh (some (linked l.tail null value)),
      rw (given, empty) refl,
      record {
        links = (ne, rw is.tail (write_self _ _ _), refl, tt);
        head = refl;
        tail = refl;
        len = omega (arith, is.len);
      },
    )
list_add_node_tail-IsList h l ((p, v) ∷ cs) fresh value is ne out =
    let given : (fresh == null) ≡ false = ground arith in
    let end = last p cs in
    let g = assign h fresh (some (linked end null value)) in
    let beside =
      frame-assign h null ((p, v) ∷ cs) null fresh (some (linked end null value)) is.links out in
    let (n, ne', here, links) = Links-set_last g null p v cs null fresh beside in
    let full : (l.tail == null) ≡ false = rw is.tail (ground arith) in
    let other : (fresh == end) ≡ false = differ fresh end ((p, v) ∷ cs) out (covers-last p v cs) in
    (
      record l { tail = fresh; len = inc32 l.len },
      assign g end (some (record n { next = fresh })),
      rw (given, full, is.tail, set_next-eq g end n ne' here fresh) refl,
      record {
        links =
            Links-join _ null ((p, v) ∷ cs) ((fresh, value) ∷ []) null links
              (ne, write_other g end fresh _ other ∙ write_self h fresh _, refl, tt)
              (λ a i. ground (arith, differ fresh a ((p, v) ∷ cs) out i));
        head = is.head;
        tail = sym (last-append p cs ((fresh, value) ∷ []));
        len = omega (arith, is.len, length-append ((p, v) ∷ cs) ((fresh, value) ∷ []));
      },
    )

-- What the two halves of `listDelNode` do around the node `p` between `xs` and `ys`.
module _ (l : Handle) (p : Address) (v : ℕ) (ne : p ≢ null) where
  unlink_prev-Links :
      (h : Heap) (xs : Row) (nxt : Address)
      → Links h null xs p
      → h p ≡ some (linked (last null xs) nxt v)
      → l.head ≡ first xs p
      → (g : Heap) × (unlink_prev l p h ≡ some (record l { head = first xs nxt }, g))
        × Links g null xs nxt
        × ((a : Address) → covers a xs ≡ false → g a ≡ h a)
  unfolding unlink_prev
  unlink_prev-Links h [] nxt links here head =
      (h, rw (fetch-eq h p (linked null nxt v) ne here) refl, tt, λ a o. refl)
  unlink_prev-Links h ((q, w) ∷ xs) nxt links here head =
      let (n, ne', there, links') = Links-set_last h null q w xs p nxt links in
      let full : (last q xs == null) ≡ false = ground arith in
      (
        assign h (last q xs) (some (record n { next = nxt })),
        rw
            (
              fetch-eq h p (linked (last q xs) nxt v) ne here,
              full,
              set_next-eq h (last q xs) n ne' there nxt,
              head,
            )
            refl,
        links',
        λ a o.
            write_other h (last q xs) a _
              (differ a (last q xs) ((q, w) ∷ xs) o (covers-last q w xs)),
      )

  unlink_next-Links :
      (h : Heap) (ys : Row) (prv : Address)
      → Links h p ys null
      → h p ≡ some (linked prv (first ys null) v)
      → l.tail ≡ last p ys
      → (g : Heap) × (unlink_next l p h ≡ some (record l { tail = last prv ys }, g))
        × Links g prv ys null
        × ((a : Address) → covers a ys ≡ false → g a ≡ h a)
  unfolding unlink_next
  unlink_next-Links h [] prv links here tail =
      (h, rw (fetch-eq h p (linked prv null v) ne here) refl, tt, λ a o. refl)
  unlink_next-Links h ((q, w) ∷ ys) prv links here tail =
      let (ne', there, out, rest) = links in
      let full : (q == null) ≡ false = ground arith in
      (
        assign h q (some (linked prv (first ys null) w)),
        rw
            (
              fetch-eq h p (linked prv q v) ne here,
              full,
              set_prev-eq h q (linked p (first ys null) w) ne' there prv,
              tail,
            )
            refl,
        Links-set_first h p q w ys null prv links,
        λ a o. write_other h q a _ (ground arith),
      )

Apart-tail :
    (xs ys : Row) (p : Address) (v : ℕ)
    → Apart xs ((p, v) ∷ ys)
    → (covers p xs ≡ false) × Apart xs ys × Apart ys xs
Apart-tail xs ys p v apart = (
  elim (Bool-cases (covers p xs)) [ inl i ↦ absurd (ground (arith, apart p i)) | inr o ↦ o ],
  λ a i. ground (arith, apart a i),
  λ a i. elim (Bool-cases (covers a xs)) [
    | inl i' ↦ absurd (ground (arith, apart a i'))
    | inr o ↦ o
  ],
)

-- `listDelNode` of any node of the list takes that node out, keeps the rest in order, frees the node, and
-- calls `list->free` on its value, if there is such a callback.
pub list_del_node-IsList :
    (h : Heap) (l : Handle) (xs ys : Row) (p : Address) (v : ℕ)
    → IsList h l (xs ++ (p, v) ∷ ys)
    → (l' : Handle) × (g : Heap) × (list_del_node l p h
        ≡ some ((l', if l.frees then v ∷ [] else []), g))
      × IsList g l' (xs ++ ys)
      × (g p ≡ none)
unfolding list_del_node
list_del_node-IsList h l xs ys p v is =
    let (left, (ne, here, out, right), apart) = Links-split h null xs ((p, v) ∷ ys) null is.links in
    let (outside, apart', apart'') = Apart-tail xs ys p v apart in
    let (h1, run1, links1, same1) =
      unlink_prev-Links l p v ne h xs (first ys null) left here
        (is.head ∙ first-append xs ((p, v) ∷ ys) null) in
    let l1 = record l { head = first xs (first ys null) } in
    let right1 = frame h h1 p ys null right (λ a i. same1 a (apart'' a i)) in
    let here1 = same1 p outside ∙ here in
    let (h2, run2, links2, same2) =
      unlink_next-Links l1 p v ne h1 ys (last null xs) right1 here1
        (is.tail ∙ last-append null xs ((p, v) ∷ ys)) in
    let here2 = same2 p out ∙ here1 in
    let left2 = frame h1 h2 null xs (first ys null) links1 (λ a i. same2 a (apart' a i)) in
    (
      record l {
        head = first xs (first ys null);
        tail = last (last null xs) ys;
        len = dec32 l.len;
      },
      assign h2 p none,
      rw (run1, run2, fetch-eq h2 p _ ne here2, free-eq h2 p _ ne here2) refl,
      record {
        links =
            Links-join _ null xs ys null (frame-assign h2 null xs _ p none left2 outside)
              (frame-assign h2 (last null xs) ys null p none links2 out) apart';
        head = sym (first-append xs ys null);
        tail = sym (last-append null xs ys);
        len = omega (arith, is.len, length-append xs ((p, v) ∷ ys), length-append xs ys);
      },
      write_self h2 p none,
    )
