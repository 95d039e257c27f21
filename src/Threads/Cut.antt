-- ===== src/Threads/Cut.antt =====
-- Taking a thread out of the middle of doubly linked ones, as `thread_suspend`, `thread_resume`,
-- `thread_cancel` and `thread_sem_post` do.
use mathlib.Core.Path.{subst}
use kw_home_work.Common.{
  ℕ, ◌+◌, ◌<◌, ◌≤◌, ◌≡◌, refl, sym, ◌∙◌, ap, Option, none, some, List, [], ◌∷◌, ◌++◌, arith, update,
  count, count-append, inl, inr,
}
use kw_home_work.Threads.{Heap}
use kw_home_work.Threads.Lists.{
  first_or, last_or, last_or-cases, Segment, Segment-split, Segment-join, Segment-frame,
  Segment-end,
}

unfoldable pub set_at : (ℕ → Option ℕ) → Option ℕ → Option ℕ → ℕ → Option ℕ
set_at f none v = f
set_at f (some a) v = update f a v

-- The neighbours of `p` linked past it.
unfoldable pub cut : ℕ → Heap → Heap
unfolding set_at
cut p h = record h {
  prev = set_at h.prev (h.next p) (h.prev p);
  next = set_at h.next (h.prev p) (h.next p);
}

pub set_at-other :
    (f : ℕ → Option ℕ) (o v : Option ℕ) (r : ℕ) → (o ≡ some r → ⊥) → set_at f o v r ≡ f r
unfolding set_at
set_at-other f none v r n = refl
set_at-other f (some a) v r n = ground (arith, n)

-- What is linked before `p`,
after_snoc :
    (h h' : Heap) (b : Option ℕ) (ys : List ℕ) (a : ℕ) (e v : Option ℕ)
    → ((r : ℕ) → h'.next r ≡ set_at h.next (some a) v r)
    → ((r : ℕ) → 0 < count r (ys ++ a ∷ []) → h'.prev r ≡ h.prev r)
    → ((r : ℕ) → count r (ys ++ a ∷ []) ≤ 1)
    → Segment h b (ys ++ a ∷ []) e
    → Segment h' b (ys ++ a ∷ []) v
unfolding set_at count
after_snoc h h' b ys a e v n f d s =
    Segment-end h h' b ys a e v
      (λ r k. (
        f r (omega (arith, k, count-append r ys (a ∷ []))),
        n r ∙ ground (arith, k, d r, count-append r ys (a ∷ [])),
      ))
      (f a (ground (arith, count-append a ys (a ∷ [])))) (n a ∙ ground arith) s

before-cut :
    (h h' : Heap) (b : Option ℕ) (xs : List ℕ) (e v : Option ℕ)
    → ((r : ℕ) → h'.next r ≡ set_at h.next (last_or b xs) v r)
    → ((r : ℕ) → 0 < count r xs → h'.prev r ≡ h.prev r)
    → ((r : ℕ) → count r xs ≤ 1)
    → Segment h b xs e
    → Segment h' b xs v
unfolding Segment
before-cut h h' b xs e v n f d s = elim (last_or-cases b xs) [
  | inl (z, l) ↦ subst (λ z. Segment h' b z v) (sym z) refl
  | inr (a, ys, z, l) ↦
      subst
        (λ z.
          ((r : ℕ) → 0 < count r z → h'.prev r ≡ h.prev r)
          → ((r : ℕ) → count r z ≤ 1)
          → Segment h b z e
          → Segment h' b z v)
        (sym z) (after_snoc h h' b ys a e v (λ r. n r ∙ ap (λ o. set_at h.next o v r) l)) f d s
]

-- and after it.
after-cut :
    (h h' : Heap) (b b' : Option ℕ) (ys : List ℕ) (e : Option ℕ)
    → ((r : ℕ) → 0 < count r ys → h'.next r ≡ h.next r)
    → ((r : ℕ) → h'.prev r ≡ set_at h.prev (first_or e ys) b' r)
    → ((r : ℕ) → count r ys ≤ 1)
    → Segment h b ys e
    → Segment h' b' ys e
unfolding Segment first_or set_at count
after-cut h h' b b' [] e n f d s = refl
after-cut h h' b b' (y ∷ ys) e n f d (l, m, s) = (
  f y ∙ ground arith,
  n y (ground arith) ∙ m,
  Segment-frame h h' (some y) ys e (λ r k. (f r ∙ ground (arith, k, d r), n r (ground (arith, k))))
      s,
)

-- A last element, unless it is what stands before the list, is on the list.
last_or-count :
    (b : Option ℕ) (xs : List ℕ) (r : ℕ) → last_or b xs ≡ some r → (b ≡ some r → ⊥) → 0 < count r xs
unfolding last_or count
last_or-count b [] r l n = absurd (n l)
last_or-count b (x ∷ []) r l n = ground (arith, l)
last_or-count b (x ∷ y ∷ xs) r l n = ground (arith, last_or-count (some y) xs r l)

pub first_or-count :
    (e : Option ℕ) (xs : List ℕ) (r : ℕ)
    → first_or e xs ≡ some r
    → (e ≡ some r → ⊥)
    → 0 < count r xs
unfolding first_or count
first_or-count e [] r l n = absurd (n l)
first_or-count e (x ∷ xs) r l n = ground (arith, l)

-- If each thread is on the list once and `b` is not, then the rest is linked when one is cut out.
pub Segment-cut :
    (h : Heap) (b : Option ℕ) (xs : List ℕ) (p : ℕ) (ys : List ℕ)
    → ((r : ℕ) → count r xs + count r (p ∷ ys) ≤ 1)
    → ((r : ℕ) → b ≡ some r → count r xs + count r (p ∷ ys) ≡ 0)
    → Segment h b (xs ++ p ∷ ys) none
    → Segment (cut p h) b (xs ++ ys) none
unfolding Segment cut count
Segment-cut h b xs p ys d z s =
    let (s1, (l, n, s2)) = Segment-split h b xs (p ∷ ys) none s in
    Segment-join (cut p h) b xs ys none
      (before-cut h (cut p h) b xs (some p) (first_or none ys)
        (λ r.
          ap (λ o. set_at h.next o (h.next p) r) l ∙ ap (λ v. set_at h.next (last_or b xs) v r) n)
        (λ r k. set_at-other h.prev (h.next p) (h.prev p) r (λ e.
          ground (arith, first_or-count none ys r (sym n ∙ e) (λ q. ground (arith, q)), d r, k)))
        (λ r. omega (arith, d r)) s1)
      (after-cut h (cut p h) (some p) (last_or b xs) ys none
        (λ r k. set_at-other h.next (h.prev p) (h.next p) r (λ e.
          let m = last_or-count b xs r (sym l ∙ e) (λ q. ground (arith, z r q, k)) in
          ground (arith, m, d r, k)))
        (λ r.
          ap (λ o. set_at h.prev o (h.prev p) r) n
          ∙ ap (λ v. set_at h.prev (first_or none ys) v r) l)
        (λ r. omega (arith, d r)) s2)

-- A cut changes no link of a thread off the list.
pub cut-off :
    (h : Heap) (b : Option ℕ) (xs : List ℕ) (p : ℕ) (ys : List ℕ) (r : ℕ)
    → count r (xs ++ p ∷ ys) ≡ 0
    → (b ≡ some r → ⊥)
    → Segment h b (xs ++ p ∷ ys) none
    → ((cut p h).prev r ≡ h.prev r) × ((cut p h).next r ≡ h.next r)
unfolding Segment cut count
cut-off h b xs p ys r z n s =
    let (s1, (l, m, s2)) = Segment-split h b xs (p ∷ ys) none s in
    let c = count-append r xs (p ∷ ys) in
    (
      set_at-other h.prev (h.next p) (h.prev p) r (λ e.
          ground (arith, first_or-count none ys r (sym m ∙ e) (λ q. ground (arith, q)), c, z)),
      set_at-other h.next (h.prev p) (h.next p) r
          (λ e. ground (arith, last_or-count b xs r (sym l ∙ e) n, c, z)),
    )
