-- ===== src/Queue/Tailq/Remove.antt =====
-- What TAILQ_REMOVE of include/queue.h does to the list.
use buaa_os.Base
use buaa_os.Base.{
  ℕ, ◌≡◌, ◌≢◌, refl, sym, subst, ap, ap₂, fun_ext, Bool, true, false, ◌||◌, Option, none, some,
  List, [], ◌∷◌, ◌++◌, ◌==◌, if◌then◌else◌, arith, has, Distinct, Bool-cases, inl, inr, ==-refl,
  ==-ne, has-append, ◌⊎◌, ◌∙◌, snoc-Distinct, remove-Distinct,
}
use buaa_os.Queue.Tailq.{Loc, null, head, link, Tailq, update, deref, unhook, remove}
use buaa_os.Queue.Tailq.Links.{Links, IsQueue, loc_in, frame}
use buaa_os.Queue.Tailq.Writes.{
  wrote, assign-wrote, deref-wrote_self, deref-wrote_ne, prev-wrote, last-wrote, apart, link-ne,
  deref-last, deref-prev, head-ne_null,
}

-- The element behind `e`, if there is one.
abbrev member? : Option ℕ → List ℕ → Bool
member? none l = true
member? (some n) l = has n l

widen : (a : Loc) (x : ℕ) (l : List ℕ) → loc_in a l ≡ true → loc_in a (x ∷ l) ≡ true
widen null x l k = k
widen head x l k = k
widen (link z) x l k = ground arith

widen_member : (n : Option ℕ) (x : ℕ) (l : List ℕ) → member? n l ≡ true → member? n (x ∷ l) ≡ true
widen_member none x l k = k
widen_member (some n) x l k = ground arith

next_member : (q : Tailq) (y : ℕ) (ys : List ℕ) → Links q (link y) ys → member? (q.next y) ys ≡ true
next_member q y [] h = rw (h.0)
next_member q y (z ∷ zs) h = rw (h.0) (rw ==-refl)

-- For an element of the queue: its back pointer lies in an element before it or is `loc`, and the
-- element behind it is one of the queue.
around :
    (q : Tailq) (e : ℕ) (loc : Loc) (x : ℕ) (xs : List ℕ)
    → Links q loc (x ∷ xs)
    → has e xs ≡ true
    → (loc_in (q.prev e) (x ∷ xs) ≡ true) × (member? (q.next e) xs ≡ true)
around q e loc x (y ∷ ys) h k = elim (Bool-cases (e == y)) [
  | inl here ↦
      let same : e ≡ y = ground arith in
      rw same (rw (h.2.1) (rw ==-refl), widen_member (q.next y) y ys (next_member q y ys h.2.2))
  | inr there ↦
      let (p, n) = around q e (link x) y ys h.2 (rw there at k) in
      (widen (q.prev e) x (y ∷ ys) p, widen_member (q.next e) y ys n)
]
around q e loc x [] h k = cc

deref-unhook : (b p : Loc) (n : Option ℕ) (q : Tailq) → deref b (unhook n p q) ≡ deref b q
deref-unhook b p none q = deref-last b p q
deref-unhook b p (some n) q = deref-prev b _ q

next-unhook : (p : Loc) (n : Option ℕ) (q : Tailq) → (unhook n p q).next ≡ q.next
next-unhook p none q = refl
next-unhook p (some n) q = refl

prev-unhook :
    (p : Loc) (n : Option ℕ) (q : Tailq) (x : ℕ) → n ≢ some x → (unhook n p q).prev x ≡ q.prev x
prev-unhook p none q x h = refl
prev-unhook p (some n) q x h = rw (==-ne x n (λ e. h (ap some (sym e))))

-- The queue after the second half of TAILQ_REMOVE.
abbrev removed : ℕ → Tailq → Tailq
removed e q = wrote (q.prev e) (q.next e) (unhook (q.next e) (q.prev e) q)

module _ (e : ℕ) (q : Tailq) where
  deref-removed : (b : Loc) → q.prev e ≢ b → deref b (removed e q) ≡ deref b q
  deref-removed b h =
      deref-wrote_ne (q.prev e) b (q.next e) _ h ∙ deref-unhook b (q.prev e) (q.next e) q

  prev-removed : (x : ℕ) → q.next e ≢ some x → (removed e q).prev x ≡ q.prev x
  prev-removed x h =
      ap (λ (f : ℕ → Loc). f x) (prev-wrote (q.prev e) (q.next e) _)
      ∙ prev-unhook (q.prev e) (q.next e) q x h

  deref_at : (loc : Loc) → q.prev e ≡ loc → loc ≢ null → deref loc (removed e q) ≡ q.next e
  deref_at loc back sound =
      ap (λ l. deref l (removed e q)) (sym back)
      ∙ deref-wrote_self (q.prev e) (q.next e) _ (λ n. sound (sym back ∙ n))

  last_at : (n : Option ℕ) → q.next e ≡ n → (removed e q).last ≡ (unhook n (q.prev e) q).last
  last_at n behind =
      last-wrote (q.prev e) (q.next e) _ ∙ ap (λ m. (unhook m (q.prev e) q).last) behind

  -- The first element goes.
  Links-removed_first :
      (loc : Loc) (xs : List ℕ)
      → Links q loc (e ∷ xs)
      → loc ≢ null
      → Distinct (e ∷ xs)
      → loc_in loc (e ∷ xs) ≡ false
      → Links (removed e q) loc xs
  Links-removed_first loc [] h sound d out =
      (deref_at loc h.1 sound ∙ h.2.0, last_at none h.2.0 ∙ h.1)
  Links-removed_first loc (y ∷ ys) h sound d out = (
    deref_at loc h.1 sound ∙ h.2.0,
    ap (λ (f : ℕ → Loc). f y) (prev-wrote (q.prev e) (q.next e) _)
        ∙ ap (λ n. (unhook n (q.prev e) q).prev y) h.2.0
        ∙ rw ==-refl h.1,
    frame q (removed e q) (link y) ys h.2.2
        (deref-removed (link y) (spared y (rw (==-refl y) (ground arith)))) (last_at (some y) h.2.0)
        (λ z k. (
          deref-removed (link z) (spared z (ground arith)),
          prev-removed z (λ b. distinct_next z k (h.2.0) b),
        )),
  )
    where
      spared : (z : ℕ) → has z (e ∷ y ∷ ys) ≡ true → q.prev e ≢ link z
      spared z k b = apart (link z) loc (e ∷ y ∷ ys) k out (sym b ∙ h.1)

      distinct_next : (z : ℕ) → has z ys ≡ true → q.next e ≡ some y → q.next e ≡ some z → ⊥
      distinct_next z k p r = cc (d.1.0)

  unlike :
      {x : ℕ} (xs : List ℕ)
      → member? (q.next e) xs ≡ true
      → q.next e ≡ some x
      → has x xs ≡ false
      → ⊥
  unlike xs n b d = cc

  Links-removed :
      (loc : Loc) (l : List ℕ)
      → Links q loc l
      → loc ≢ null
      → has e l ≡ true
      → Distinct l
      → loc_in loc l ≡ false
      → Links (removed e q) loc (Base.remove e l)
  Links-removed loc [] h ok_loc k d out = cc
  Links-removed loc (x ∷ xs) h ok_loc k d out = elim (Bool-cases (e == x)) [
    | inl here ↦
        let same : e ≡ x = ground arith in
        rw here (Links-removed_first loc xs (rw same h) ok_loc (rw same d) (rw same out))
    | inr there ↦
        let (p, n) = around q e loc x xs h (rw there at k) in
        rw there (
          deref-removed loc (apart (q.prev e) loc (x ∷ xs) p out) ∙ h.0,
          prev-removed x (λ b. unlike xs n b d.0) ∙ h.1,
          Links-removed (link x) xs h.2 (λ b. cc) (rw there at k) d.1 d.0,
        )
  ]

-- The back pointer of an element that is in the queue is not null.
back-not-null :
    (q : Tailq) (e : ℕ) (loc : Loc) (l : List ℕ)
    → Links q loc l
    → loc ≢ null
    → has e l ≡ true
    → q.prev e ≢ null
back-not-null q e loc [] h sound k b = cc
back-not-null q e loc (x ∷ xs) h sound k b = elim (Bool-cases (e == x)) [
  | inl here ↦ let same : e ≡ x = ground arith in sound (sym h.1 ∙ ap q.prev (sym same) ∙ b)
  | inr there ↦ back-not-null q e (link x) xs h.2 (λ c. cc) (rw there at k) b
]

-- An element of the queue is not the one behind itself.
next-ne_self :
    (q : Tailq) (e : ℕ) (loc : Loc) (l : List ℕ)
    → Links q loc l
    → has e l ≡ true
    → Distinct l
    → q.next e ≢ some e
next-ne_self q e loc [] h k d b = cc
next-ne_self q e loc (x ∷ xs) h k d b = elim (Bool-cases (e == x)) [
  | inl here ↦
      let same : e ≡ x = ground arith in
      let n : member? (q.next x) xs ≡ true = next_member q x xs h.2 in
      unlike x q xs n (rw (← same) b) d.0
  | inr there ↦ next-ne_self q e (link x) xs h.2 (rw there at k) d.1 b
]

-- What TAILQ_REMOVE computes where the element's own fields survive the first half.
remove-removed :
    (e : ℕ) (q : Tailq) → q.next e ≢ some e → q.prev e ≢ null → remove e q ≡ some (removed e q)
unfolding remove
remove-removed e q loop sound =
    rw (prev-unhook (q.prev e) (q.next e) q e loop, next-unhook (q.prev e) (q.next e) q)
      (assign-wrote (q.prev e) (q.next e) _ sound)

-- TAILQ_REMOVE of an element of the queue takes it out and keeps the order of the others, without
-- a fault.
pub remove-IsQueue :
    (e : ℕ) (q : Tailq) (l : List ℕ)
    → IsQueue q l
    → has e l ≡ true
    → (q' : Tailq) × (remove e q ≡ some q') × IsQueue q' (Base.remove e l)
remove-IsQueue e q l is k = (
  removed e q,
  remove-removed e q (next-ne_self q e head l is.links k is.distinct)
      (back-not-null q e head l is.links head-ne_null k),
  record {
    links = Links-removed e q head l is.links head-ne_null k is.distinct refl;
    distinct = remove-Distinct e l is.distinct;
  },
)

back-ne_self :
    (q : Tailq) (e : ℕ) (loc : Loc) (l : List ℕ)
    → Links q loc l
    → has e l ≡ true
    → loc ≢ link e
    → q.prev e ≢ link e
back-ne_self q e loc [] h k ne b = cc
back-ne_self q e loc (x ∷ xs) h k ne b = elim (Bool-cases (e == x)) [
  | inl here ↦ let same : e ≡ x = ground arith in ne (sym h.1 ∙ ap q.prev (sym same) ∙ b)
  | inr there ↦ back-ne_self q e (link x) xs h.2 (rw there at k) (link-ne x e (ground arith)) b
]

update_twice : {A : Type 0} (f : ℕ → A) (n : ℕ) (v : A) → update (update f n v) n v ≡ update f n v
update_twice f n v = fun_ext λ x. ground arith

removed_again :
    (a : Loc) (n : Option ℕ) (q : Tailq)
    → wrote a n (unhook n a (wrote a n (unhook n a q))) ≡ wrote a n (unhook n a q)
removed_again null none q = refl
removed_again null (some m) q = rw update_twice
removed_again head none q = refl
removed_again head (some m) q = rw update_twice
removed_again (link x) none q = rw update_twice
removed_again (link x) (some m) q = simp update_twice

-- Once an element of the queue is removed, removing it again at once changes nothing.
pub remove_twice :
    (e : ℕ) (q : Tailq) (l : List ℕ)
    → IsQueue q l
    → has e l ≡ true
    → (q' : Tailq) × (remove e q ≡ some q') × (remove e q' ≡ some q')
remove_twice e q l is k =
    let loop = next-ne_self q e head l is.links k is.distinct in
    let sound = back-not-null q e head l is.links head-ne_null k in
    let back = back-ne_self q e head l is.links k (λ b. cc) in
    let p : (removed e q).prev e ≡ q.prev e = prev-removed e q e loop in
    let n : (removed e q).next e ≡ q.next e = deref-removed e q (link e) back in
    (
      removed e q,
      remove-removed e q loop sound,
      remove-removed e (removed e q) (λ b. loop (sym n ∙ b)) (λ b. sound (sym p ∙ b))
          ∙ ap some (again p n),
    )
  where
    again :
        (removed e q).prev e ≡ q.prev e
        → (removed e q).next e ≡ q.next e
        → removed e (removed e q) ≡ removed e q
    again p n =
        ap₂ (λ a m. wrote a m (unhook m a (removed e q))) p n
        ∙ removed_again (q.prev e) (q.next e) q
