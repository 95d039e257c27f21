-- ===== src/Threads/Lists.antt =====
-- Doubly linked threads: what the links of the heap of SystemSoftware/Thread-scheduler/thread.c say
-- of a list of addresses, and what an append and a removal do to it.
use kw_home_work.Common.{
  ℕ, zero, ◌<◌, ◌≡◌, refl, sym, ◌∙◌, ap, Option, none, some, List, [], ◌∷◌, ◌++◌, arith, update,
  count, count-append, ◌⊎◌, inl, inr,
}
use kw_home_work.Threads.{Heap}

unfoldable pub first_or : Option ℕ → List ℕ → Option ℕ
first_or e [] = e
first_or e (p ∷ ps) = some p

unfoldable pub last_or : Option ℕ → List ℕ → Option ℕ
last_or b [] = b
last_or b (p ∷ ps) = last_or (some p) ps

-- The threads are linked in order; the first points back at `b`, the last on to `e`.
unfoldable pub Segment : Heap → Option ℕ → List ℕ → Option ℕ → Type 0
unfolding first_or
Segment h b [] e = zero ≡ zero
Segment h b (p ∷ ps) e = (h.prev p ≡ b) × (h.next p ≡ first_or e ps) × Segment h (some p) ps e

-- The same without the links back.
unfoldable pub Chain : Heap → List ℕ → Type 0
unfolding first_or
Chain h [] = zero ≡ zero
Chain h (p ∷ ps) = (h.next p ≡ first_or none ps) × Chain h ps

pub last_or-snoc : (b : Option ℕ) (xs : List ℕ) (a : ℕ) → last_or b (xs ++ a ∷ []) ≡ some a
unfolding last_or
last_or-snoc b [] a = refl
last_or-snoc b (x ∷ xs) a = last_or-snoc (some x) xs a

pub first_or-append :
    (e : Option ℕ) (xs ys : List ℕ) → first_or e (xs ++ ys) ≡ first_or (first_or e ys) xs
unfolding first_or
first_or-append e [] ys = refl
first_or-append e (x ∷ xs) ys = refl

pub last_or-append :
    (b : Option ℕ) (xs ys : List ℕ) → last_or b (xs ++ ys) ≡ last_or (last_or b xs) ys
unfolding last_or
last_or-append b [] ys = refl
last_or-append b (x ∷ xs) ys = last_or-append (some x) xs ys

-- The last element, when there is one, is on the list.
pub last_or-cases :
    (b : Option ℕ) (xs : List ℕ)
    → ((xs ≡ []) × (last_or b xs ≡ b))
      ⊎ ((a : ℕ) × (ys : List ℕ) × (xs ≡ ys ++ a ∷ []) × (last_or b xs ≡ some a))
unfolding last_or
last_or-cases b [] = inl (refl, refl)
last_or-cases b (x ∷ xs) = elim (last_or-cases (some x) xs) [
  | inl (e, l) ↦ inr (x, [], ap (◌∷◌ x) e, l)
  | inr (a, ys, e, l) ↦ inr (a, x ∷ ys, ap (◌∷◌ x) e, l)
]

pub Segment-frame :
    (h h' : Heap) (b : Option ℕ) (ps : List ℕ) (e : Option ℕ)
    → ((r : ℕ) → 0 < count r ps → (h'.prev r ≡ h.prev r) × (h'.next r ≡ h.next r))
    → Segment h b ps e
    → Segment h' b ps e
unfolding Segment count first_or
Segment-frame h h' b [] e f s = refl
Segment-frame h h' b (p ∷ ps) e f (l, n, s) =
    let (fl, fn) = f p (ground arith) in
    (fl ∙ l, fn ∙ n, Segment-frame h h' (some p) ps e (λ r k. f r (ground (arith, k))) s)

pub Chain-frame :
    (h h' : Heap) (ps : List ℕ)
    → ((r : ℕ) → 0 < count r ps → h'.next r ≡ h.next r)
    → Chain h ps
    → Chain h' ps
unfolding Chain count first_or
Chain-frame h h' [] f s = refl
Chain-frame h h' (p ∷ ps) f (n, s) =
    (f p (ground arith) ∙ n, Chain-frame h h' ps (λ r k. f r (ground (arith, k))) s)

pub Segment-split :
    (h : Heap) (b : Option ℕ) (xs ys : List ℕ) (e : Option ℕ)
    → Segment h b (xs ++ ys) e
    → Segment h b xs (first_or e ys) × Segment h (last_or b xs) ys e
unfolding Segment first_or last_or
Segment-split h b [] ys e s = (refl, s)
Segment-split h b (x ∷ xs) ys e (l, n, s) =
    let (s1, s2) = Segment-split h (some x) xs ys e s in ((l, n ∙ first_or-append e xs ys, s1), s2)

pub Segment-join :
    (h : Heap) (b : Option ℕ) (xs ys : List ℕ) (e : Option ℕ)
    → Segment h b xs (first_or e ys)
    → Segment h (last_or b xs) ys e
    → Segment h b (xs ++ ys) e
unfolding Segment first_or last_or
Segment-join h b [] ys e s1 s2 = s2
Segment-join h b (x ∷ xs) ys e (l, n, s1) s2 =
    (l, n ∙ sym (first_or-append e xs ys), Segment-join h (some x) xs ys e s1 s2)

-- An element at the end of a list that is not empty.
unfoldable pub appended : Option ℕ → ℕ → ℕ → Heap → Heap
appended back a p h = record h {
  prev = update h.prev p back;
  next = update (update h.next a (some p)) p none;
}

-- The end of a segment, moved.
pub Segment-end :
    (h h' : Heap) (b : Option ℕ) (xs : List ℕ) (a : ℕ) (e e' : Option ℕ)
    → ((r : ℕ) → 0 < count r xs → (h'.prev r ≡ h.prev r) × (h'.next r ≡ h.next r))
    → h'.prev a ≡ h.prev a
    → h'.next a ≡ e'
    → Segment h b (xs ++ a ∷ []) e
    → Segment h' b (xs ++ a ∷ []) e'
unfolding Segment first_or
Segment-end h h' b xs a e e' f l n s =
    let (s1, (l2, n2, s2)) = Segment-split h b xs (a ∷ []) e s in
    Segment-join h' b xs (a ∷ []) e' (Segment-frame h h' b xs (some a) f s1) (l ∙ l2, n, refl)

pub Segment-append :
    (h : Heap) (b : Option ℕ) (xs : List ℕ) (a p : ℕ)
    → count a xs ≡ 0
    → count p (xs ++ a ∷ []) ≡ 0
    → Segment h b (xs ++ a ∷ []) none
    → Segment (appended (some a) a p h) b ((xs ++ a ∷ []) ++ p ∷ []) none
unfolding Segment first_or appended count
Segment-append h b xs a p na np s =
    let np2 = count-append p xs (a ∷ []) in
    Segment-join (appended (some a) a p h) b (xs ++ a ∷ []) (p ∷ []) none
      (Segment-end h (appended (some a) a p h) b xs a none (some p)
        (λ r k. (ground (arith, k, np2, np), ground (arith, k, np2, np, na)))
        (ground (arith, np2, np)) (ground (arith, np2, np)) s)
      (ground (arith, last_or-snoc b xs a), ground arith, refl)
