-- ===== src/Queue/Links/Unlinking.antt =====
-- CIRCLEQ_REMOVE of OS/hw3/queue.h on links that show a list.
use mathlib.Core.Path.{subst}
use kw_home_work.Common.{
  ℕ, ◌<◌, ◌≤◌, ◌≡◌, refl, sym, ◌∙◌, ap, Option, none, some, List, [], ◌∷◌, ◌++◌, arith, ◌==◌,
  if◌then◌else◌, ◌>>=◌, count, count-append, inl, inr, ==-false, Bool-cases, ==_iff, Option-cases,
}
use kw_home_work.Queue.{erase}
use kw_home_work.Queue.Links.{Links, unlink, unlink_back, unlink_on, set_next, set_prev}
use kw_home_work.Threads.Lists.{first_or, last_or, Segment, Segment-split}
use kw_home_work.Threads.Cut.{cut, set_at, Segment-cut, first_or-count}
use kw_home_work.Threads.Ends.{last_or-some, last_or-middle, last_or-nil}
use kw_home_work.Queue.Links.Circle.{heap, Circle}

-- The queue around an element.
split :
    (p : ℕ) (ps : List ℕ)
    → 0 < count p ps
    → (xs ys : List ℕ) × (ps ≡ xs ++ p ∷ ys) × (erase p ps ≡ xs ++ ys)
unfolding count erase
split p [] k = absurd (omega (arith, k))
split p (q ∷ qs) k = elim (Bool-cases (q == p)) [
  | inl b ↦ ([], qs, ap (λ x. x ∷ qs) ((==_iff q p).0 b), rw (b, if◌then◌else◌) refl)
  | inr b ↦
      let (xs, ys, e, f) = split p qs (ground (arith, b, k)) in
      (q ∷ xs, ys, ap (◌∷◌ q) e, rw (b, if◌then◌else◌) (ap (◌∷◌ q) f))
]

abbrev when_none : Option ℕ → Option ℕ → Option ℕ → Option ℕ
when_none none v w = v
when_none (some a) v w = w

removed : ℕ → Links → Links
unfolding set_at
removed p l = record {
  first = when_none (l.prev p) (l.next p) l.first;
  last = when_none (l.next p) (l.prev p) l.last;
  next = set_at l.next (l.prev p) (l.next p);
  prev = set_at l.prev (l.next p) (l.prev p);
}

unlink_run :
    (p : ℕ) (l : Links)
    → ((y : ℕ) → l.next p ≡ some y → p ≡ y → ⊥)
    → unlink p l ≡ some (removed p l)
unfolding unlink removed set_at
unlink_run p l n = elim (Option-cases (l.next p)) [
  | inl e ↦ elim (Option-cases (l.prev p)) [
    | inl f ↦ simp (unlink, unlink_back, unlink_on, e, f, ◌>>=◌, when_none, set_at)
    | inr (a, f) ↦ simp (unlink, unlink_back, unlink_on, e, f, ◌>>=◌, set_next, when_none, set_at)
  ]
  | inr (y, e) ↦
      let u = ==-false p y (n y e) in
      elim (Option-cases (l.prev p)) [
        | inl f ↦ simp (unlink, unlink_back, unlink_on, e, ◌>>=◌, set_prev, u, f, when_none, set_at)
        | inr (a, f) ↦
            simp (
              unlink, unlink_back, unlink_on, e, ◌>>=◌, set_prev, u, f, set_next, when_none, set_at,
            )
      ]
]

once_after :
    (xs : List ℕ) (p : ℕ) (ys : List ℕ) (y : ℕ)
    → count y (xs ++ p ∷ ys) ≤ 1
    → p ≡ y
    → count y ys ≡ 0
unfolding count
once_after xs p ys y d e = ground (arith, d, e, count-append y xs (p ∷ ys))

first_left :
    (before after first : Option ℕ) (xs : List ℕ) (p : ℕ) (ys : List ℕ)
    → before ≡ last_or none xs
    → after ≡ first_or none ys
    → first ≡ first_or none (xs ++ p ∷ ys)
    → when_none before after first ≡ first_or none (xs ++ ys)
unfolding first_or last_or
first_left before after first [] p ys e f g = ap (λ o. when_none o after first) e ∙ f
first_left before after first (x ∷ xs) p ys e f g =
    let (a, h, k) = last_or-some x xs in ap (λ o. when_none o after first) (e ∙ h) ∙ g

last_left :
    (before after last : Option ℕ) (xs : List ℕ) (p : ℕ) (ys : List ℕ)
    → before ≡ last_or none xs
    → after ≡ first_or none ys
    → last ≡ last_or none (xs ++ p ∷ ys)
    → when_none after before last ≡ last_or none (xs ++ ys)
unfolding first_or
last_left before after last xs p [] e f g =
    ap (λ o. when_none o before last) f ∙ e ∙ last_or-nil none xs
last_left before after last xs p (y ∷ ys) e f g =
    ap (λ o. when_none o before last) f ∙ g ∙ sym (last_or-middle none xs p y ys)

unlink-middle :
    (p : ℕ) (l : Links) (xs ys : List ℕ)
    → Circle l (xs ++ p ∷ ys)
    → ((r : ℕ) → count r (xs ++ p ∷ ys) ≤ 1)
    → (l' : Links) × (unlink p l ≡ some l') × Circle l' (xs ++ ys)
unfolding Segment cut removed
unlink-middle p l xs ys c d =
    let (s1, (e, f, s2)) = Segment-split (heap l) none xs (p ∷ ys) none c.linked in
    (
      removed p l,
      unlink_run p l (λ y g z. ground (
        arith,
        first_or-count none ys y (sym f ∙ g) (λ q. ground (arith, q)),
        z,
        once_after xs p ys y (d y),
      )),
      record {
        at_first = first_left (l.prev p) (l.next p) l.first xs p ys e f c.at_first;
        at_last = last_left (l.prev p) (l.next p) l.last xs p ys e f c.at_last;
        linked =
            Segment-cut (heap l) none xs p ys (λ r. omega (arith, d r, count-append r xs (p ∷ ys)))
              (λ r q. absurd (ground (arith, q))) c.linked;
      },
    )

pub unlink-Circle :
    (p : ℕ) (l : Links) (ps : List ℕ)
    → Circle l ps
    → ((r : ℕ) → count r ps ≤ 1)
    → 0 < count p ps
    → (l' : Links) × (unlink p l ≡ some l') × Circle l' (erase p ps)
unlink-Circle p l ps c d k =
    let (xs, ys, e, f) = split p ps k in
    let (l', r, c') =
      unlink-middle p l xs ys (subst (Circle l) e c) (subst (λ z. (r : ℕ) → count r z ≤ 1) e d) in
    (l', r, subst (Circle l') (sym f) c')
