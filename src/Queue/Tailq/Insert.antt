-- ===== src/Queue/Tailq/Insert.antt =====
-- What TAILQ_INSERT_TAIL and TAILQ_INSERT_HEAD of include/queue.h do to the list.
use buaa_os.Base.{
  ℕ, ◌≡◌, ◌≢◌, refl, sym, subst, ap, false, none, some, List, [], ◌∷◌, ◌++◌, arith, has, Distinct,
  ==-refl, ==-ne, ◌∙◌, snoc-Distinct,
}
use buaa_os.Queue.Tailq.{
  Loc, null, head, link, Tailq, update, deref, insert_tail, insert_head, insert_before,
}
use buaa_os.Queue.Tailq.Links.{Links, IsQueue, loc_in, frame}
use buaa_os.Queue.Tailq.Writes.{
  wrote, assign-wrote, deref-wrote_self, deref-wrote_ne, prev-wrote, apart, link-ne, deref-last,
  last_in, last-not-null, head-ne_null, last_away,
}

module _ (e : ℕ) (q : Tailq) (sound : q.last ≢ null) where
  abbrev fresh : Tailq
  fresh = record q { next = update q.next e none; prev = update q.prev e q.last }

  abbrev appended : Tailq
  appended = record (wrote q.last (some e) fresh) { last = link e }

  deref-fresh : (b : Loc) → b ≢ link e → deref b fresh ≡ deref b q
  deref-fresh null h = refl
  deref-fresh head h = refl
  deref-fresh (link x) h = rw (==-ne x e (λ p. h (ap link p)))

  deref-appended : (b : Loc) → b ≢ link e → q.last ≢ b → deref b appended ≡ deref b q
  deref-appended b h k =
      deref-last b (link e) _ ∙ deref-wrote_ne q.last b (some e) fresh k ∙ deref-fresh b h

  Links-appended :
      (loc : Loc) (l : List ℕ)
      → Links q loc l
      → has e l ≡ false
      → loc ≢ link e
      → q.last ≢ link e
      → loc_in loc l ≡ false
      → Distinct l
      → Links appended loc (l ++ e ∷ [])
  Links-appended loc [] h out ne lne inl_ d = (
    rw (← h.1) (deref-last q.last (link e) _ ∙ deref-wrote_self q.last (some e) fresh sound),
    rw (prev-wrote q.last (some e) fresh) (rw (==-refl e) h.1),
    (deref-wrote_ne q.last (link e) (some e) fresh lne ∙ rw (==-refl e), refl),
  )
  Links-appended loc (x ∷ xs) h out ne lne inl_ d = (
    deref-appended loc ne (apart q.last loc (x ∷ xs) (last_in q loc x xs h) inl_) ∙ h.0,
    rw (prev-wrote q.last (some e) fresh) (rw (==-ne x e (ground arith)) h.1),
    Links-appended (link x) xs h.2 (ground arith) (link-ne x e (ground arith)) lne d.0 d.1,
  )

-- TAILQ_INSERT_TAIL of an element that is not in the queue puts it behind the others, without a
-- fault.
pub insert_tail-IsQueue :
    (e : ℕ) (q : Tailq) (l : List ℕ)
    → IsQueue q l
    → has e l ≡ false
    → (q' : Tailq) × (insert_tail e q ≡ some q') × IsQueue q' (l ++ e ∷ [])
unfolding insert_tail
insert_tail-IsQueue e q l is out = (
  appended e q sound,
  rw (assign-wrote q.last (some e) (fresh e q sound) sound, insert_tail),
  record {
    links = Links-appended e q sound head l is.links out (λ h. cc) away refl is.distinct;
    distinct = snoc-Distinct e l is.distinct out;
  },
)
  where
    sound : q.last ≢ null
    sound = last-not-null q head l head-ne_null is.links

    away : q.last ≢ link e
    away = last_away q e l is.links out

Links-before_some :
    (e x : ℕ) (q : Tailq) (xs : List ℕ)
    → Links q head (x ∷ xs)
    → has e (x ∷ xs) ≡ false
    → Distinct (x ∷ xs)
    → Links (insert_before (some x) e q) head (e ∷ x ∷ xs)
Links-before_some e x q xs h out d = (
  refl,
  rw ==-refl,
  (
    rw ==-refl,
    rw (==-ne x e (ground arith), ==-refl x),
    frame q _ (link x) xs h.2 (rw (==-ne x e (ground arith))) refl (λ y k.
        (rw (==-ne y e (ground arith)), rw (==-ne y e (ground arith), ==-ne y x (ground arith)))),
  ),
)

-- TAILQ_INSERT_HEAD of an element that is not in the queue puts it before the others.
pub insert_head-IsQueue :
    (e : ℕ) (q : Tailq) (l : List ℕ)
    → IsQueue q l
    → has e l ≡ false
    → IsQueue (insert_head e q) (e ∷ l)
unfolding insert_head
insert_head-IsQueue e q [] is out = record {
  links =
      subst (λ f. Links (insert_before f e q) head (e ∷ [])) (sym is.links.0)
        (refl, rw ==-refl, (rw ==-refl, refl));
  distinct = (out, is.distinct);
}
insert_head-IsQueue e q (x ∷ xs) is out = record {
  links =
      subst (λ f. Links (insert_before f e q) head (e ∷ x ∷ xs)) (sym is.links.0)
        (Links-before_some e x q xs is.links out is.distinct);
  distinct = (out, is.distinct);
}
