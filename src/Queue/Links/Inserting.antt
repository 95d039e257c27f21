-- ===== src/Queue/Links/Inserting.antt =====
-- CIRCLEQ_INSERT_HEAD and CIRCLEQ_INSERT_TAIL of OS/hw3/queue.h on links that show a list.
use mathlib.Core.Path.{subst}
use kw_home_work.Common.{
  ℕ, ◌<◌, ◌≤◌, ◌≡◌, refl, sym, ◌∙◌, ap, Option, none, some, List, [], ◌∷◌, ◌++◌, arith, update,
  count, count-append, length, inl, inr,
}
use kw_home_work.Queue.{insert_head, insert_tail}
use kw_home_work.Queue.Links.{Links, link_head, link_tail}
use kw_home_work.Threads.Lists.{
  first_or, last_or, last_or-cases, last_or-snoc, Segment, Segment-frame, Segment-append, appended,
}
use kw_home_work.Threads.Ends.{last_or-some}
use kw_home_work.Queue.Links.Circle.{heap, Circle}

update-other :
    (f : ℕ → Option ℕ) (p : ℕ) (v : Option ℕ) (r : ℕ) → (r ≡ p → ⊥) → update f p v r ≡ f r
update-other f p v r n = ground (arith, n)

count_apart : (r p : ℕ) (ps : List ℕ) → 0 < count r ps → count p ps ≡ 0 → r ≡ p → ⊥
count_apart r p ps k z e = omega (arith, k, z, ap (λ x. count x ps) e)

count_after : (r x : ℕ) (xs : List ℕ) → 0 < count r xs → count r (x ∷ xs) ≤ 1 → r ≡ x → ⊥
unfolding count
count_after r x xs k z e = ground (arith, k, z, e)

count_tail : (p x : ℕ) (xs : List ℕ) → count p (x ∷ xs) ≡ 0 → count p xs ≡ 0
unfolding count
count_tail p x xs e = omega (arith, e)

last_once : (xs : List ℕ) (a : ℕ) → count a (xs ++ a ∷ []) ≤ 1 → count a xs ≡ 0
unfolding count
last_once xs a d = ground (arith, d, count-append a xs (a ∷ []))

head_run_nil :
    (p : ℕ) (l : Links)
    → l.last ≡ none
    → link_head p l
      ≡ some (record l {
        first = some p;
        last = some p;
        next = update l.next p l.first;
        prev = update l.prev p none;
      })
unfolding link_head
head_run_nil p l e = simp (link_head, e)

head_run_cons :
    (p x a : ℕ) (l : Links)
    → l.last ≡ some a
    → l.first ≡ some x
    → link_head p l
      ≡ some (record l {
        first = some p;
        next = update l.next p l.first;
        prev = update (update l.prev p none) x (some p);
      })
unfolding link_head
head_run_cons p x a l e f = simp (link_head, e, f)

pub link_head-Circle :
    (p : ℕ) (l : Links) (ps : List ℕ)
    → Circle l ps
    → count p ps ≡ 0
    → ((r : ℕ) → count r ps ≤ 1)
    → (l' : Links) × (link_head p l ≡ some l') × Circle l' (insert_head p ps)
unfolding link_head first_or last_or Segment count
link_head-Circle p l [] c n d = (
  record l {
    first = some p;
    last = some p;
    next = update l.next p l.first;
    prev = update l.prev p none;
  },
  head_run_nil p l c.at_last,
  record {
    at_first = refl;
    at_last = refl;
    linked = (ground arith, ground (arith, c.at_first), refl);
  },
)
link_head-Circle p l (x ∷ xs) c n d =
    let (a, e, k) = last_or-some x xs in
    let (f, g, s) = c.linked in
    let l' : Links = record l {
      first = some p;
      next = update l.next p l.first;
      prev = update (update l.prev p none) x (some p);
    } in
    (
      l',
      head_run_cons p x a l (c.at_last ∙ e) c.at_first,
      record {
        at_first = refl;
        at_last = c.at_last;
        linked = (
          ground (arith, n),
          ground (arith, c.at_first),
          (
            ground arith,
            ground (arith, n) ∙ g,
            Segment-frame (heap l) (heap l') (some x) xs none
                (λ r j.
                  let np = count_apart r p xs j (count_tail p x xs n) in
                  (
                    update-other (update l.prev p none) x (some p) r (count_after r x xs j (d r))
                        ∙ update-other l.prev p none r np,
                    update-other l.next p l.first r np,
                  ))
                s,
          ),
        );
      },
    )

tail_run_nil :
    (p : ℕ) (l : Links)
    → l.first ≡ none
    → link_tail p l
      ≡ some (record l {
        first = some p;
        last = some p;
        next = update l.next p none;
        prev = update l.prev p l.last;
      })
unfolding link_tail
tail_run_nil p l e = simp (link_tail, e)

tail_run_snoc :
    (p x a : ℕ) (l : Links)
    → l.first ≡ some x
    → l.last ≡ some a
    → link_tail p l
      ≡ some (record l {
        last = some p;
        next = update (update l.next p none) a (some p);
        prev = update l.prev p l.last;
      })
unfolding link_tail
tail_run_snoc p x a l e f = simp (link_tail, e, f)

first_or-snoc : (xs : List ℕ) (a : ℕ) → (x : ℕ) × (first_or none (xs ++ a ∷ []) ≡ some x)
unfolding first_or
first_or-snoc [] a = (a, refl)
first_or-snoc (x ∷ xs) a = (x, refl)

first_or-more :
    (xs : List ℕ) (a p : ℕ)
    → first_or none (xs ++ a ∷ []) ≡ first_or none ((xs ++ a ∷ []) ++ p ∷ [])
unfolding first_or
first_or-more [] a p = refl
first_or-more (x ∷ xs) a p = refl

-- Two updates in either order.
update-swap :
    (f : ℕ → Option ℕ) (p a : ℕ) (v w : Option ℕ) (r : ℕ)
    → (p ≡ a → ⊥)
    → update (update f p v) a w r ≡ update (update f a w) p v r
update-swap f p a v w r n = ground (arith, n)

link_tail-snoc :
    (p : ℕ) (l : Links) (xs : List ℕ) (a : ℕ)
    → Circle l (xs ++ a ∷ [])
    → count p (xs ++ a ∷ []) ≡ 0
    → ((r : ℕ) → count r (xs ++ a ∷ []) ≤ 1)
    → (l' : Links) × (link_tail p l ≡ some l') × Circle l' (insert_tail p (xs ++ a ∷ []))
unfolding appended count
link_tail-snoc p l xs a c n d =
    let (x, e) = first_or-snoc xs a in
    let last = c.at_last ∙ last_or-snoc none xs a in
    let l' : Links = record l {
      last = some p;
      next = update (update l.next p none) a (some p);
      prev = update l.prev p l.last;
    } in
    let na : p ≡ a → ⊥ = λ z. ground (arith, z, n, count-append p xs (a ∷ [])) in
    (
      l',
      tail_run_snoc p x a l (c.at_first ∙ e) last,
      record {
        at_first = c.at_first ∙ first_or-more xs a p;
        at_last = sym (last_or-snoc none (xs ++ a ∷ []) p);
        linked =
            Segment-frame (appended (some a) a p (heap l)) (heap l') none ((xs ++ a ∷ []) ++ p ∷ [])
              none
              (λ r j.
                (ap (λ v. update l.prev p v r) last, update-swap l.next p a none (some p) r na))
              (Segment-append (heap l) none xs a p (last_once xs a (d a)) n c.linked);
      },
    )

pub link_tail-Circle :
    (p : ℕ) (l : Links) (ps : List ℕ)
    → Circle l ps
    → count p ps ≡ 0
    → ((r : ℕ) → count r ps ≤ 1)
    → (l' : Links) × (link_tail p l ≡ some l') × Circle l' (insert_tail p ps)
unfolding first_or last_or Segment
link_tail-Circle p l [] c n d = (
  record l {
    first = some p;
    last = some p;
    next = update l.next p none;
    prev = update l.prev p l.last;
  },
  tail_run_nil p l c.at_first,
  record {
    at_first = refl;
    at_last = refl;
    linked = (ground (arith, c.at_last), ground arith, refl);
  },
)
link_tail-Circle p l (x ∷ xs) c n d = elim (last_or-cases none (x ∷ xs)) [
  | inl (z, _) ↦ absurd (omega (arith, ap length z))
  | inr (a, ys, z, _) ↦
      subst
        (λ z.
          Circle l z
          → count p z ≡ 0
          → ((r : ℕ) → count r z ≤ 1)
          → (l' : Links) × (link_tail p l ≡ some l') × Circle l' (insert_tail p z))
        (sym z) (link_tail-snoc p l ys a) c n d
]
