-- ===== src/Queue/Tailq/Writes.antt =====
-- Writes through the pointers of a tail queue of include/queue.h.
use buaa_os.Base.{
  ℕ, ◌≡◌, ◌≢◌, refl, sym, ap, true, false, Option, some, List, [], ◌∷◌, arith, has, ==-refl, ==-ne,
  ◌∙◌,
}
use buaa_os.Queue.Tailq.{Loc, null, head, link, Tailq, update, deref, assign}
use buaa_os.Queue.Tailq.Links.{Links, loc_in}

-- `assign` where the address is not null.
abbrev pub wrote : Loc → Option ℕ → Tailq → Tailq
wrote null v q = q
wrote head v q = record q { first = v }
wrote (link e) v q = record q { next = update q.next e v }

pub assign-wrote :
    (a : Loc) (v : Option ℕ) (q : Tailq) → a ≢ null → assign a v q ≡ some (wrote a v q)
assign-wrote null v q h = absurd (h refl)
assign-wrote head v q h = refl
assign-wrote (link e) v q h = refl

pub deref-wrote_self : (a : Loc) (v : Option ℕ) (q : Tailq) → a ≢ null → deref a (wrote a v q) ≡ v
deref-wrote_self null v q h = absurd (h refl)
deref-wrote_self head v q h = refl
deref-wrote_self (link e) v q h = rw ==-refl

pub deref-wrote_ne :
    (a b : Loc) (v : Option ℕ) (q : Tailq) → a ≢ b → deref b (wrote a v q) ≡ deref b q
deref-wrote_ne null b v q h = refl
deref-wrote_ne head null v q h = refl
deref-wrote_ne head head v q h = absurd (h refl)
deref-wrote_ne head (link x) v q h = refl
deref-wrote_ne (link e) null v q h = refl
deref-wrote_ne (link e) head v q h = refl
deref-wrote_ne (link e) (link x) v q h = rw (==-ne x e (λ p. h (ap link (sym p))))

pub prev-wrote : (a : Loc) (v : Option ℕ) (q : Tailq) → (wrote a v q).prev ≡ q.prev
prev-wrote null v q = refl
prev-wrote head v q = refl
prev-wrote (link e) v q = refl

pub last-wrote : (a : Loc) (v : Option ℕ) (q : Tailq) → (wrote a v q).last ≡ q.last
last-wrote null v q = refl
last-wrote head v q = refl
last-wrote (link e) v q = refl

pub apart : (a b : Loc) (l : List ℕ) → loc_in a l ≡ true → loc_in b l ≡ false → a ≢ b
apart a b l h k e = cc

pub link-ne : (x y : ℕ) → x ≢ y → link x ≢ link y
link-ne x y h e = h (cc)

pub deref-last : (b l : Loc) (q : Tailq) → deref b (record q { last = l }) ≡ deref b q
deref-last null l q = refl
deref-last head l q = refl
deref-last (link e) l q = refl

pub deref-prev : (b : Loc) (f : ℕ → Loc) (q : Tailq) → deref b (record q { prev = f }) ≡ deref b q
deref-prev null f q = refl
deref-prev head f q = refl
deref-prev (link e) f q = refl

-- The last pointer of a queue lies in its last element.
pub last_in :
    (q : Tailq) (loc : Loc) (x : ℕ) (xs : List ℕ)
    → Links q loc (x ∷ xs)
    → loc_in q.last (x ∷ xs) ≡ true
last_in q loc x [] h = rw (h.2.1) (rw ==-refl)
last_in q loc x (y ∷ ys) h = widen q.last (last_in q (link x) y ys h.2)
  where
    widen : (a : Loc) → loc_in a (y ∷ ys) ≡ true → loc_in a (x ∷ y ∷ ys) ≡ true
    widen null k = k
    widen head k = k
    widen (link z) k = ground arith

pub last-not-null :
    (q : Tailq) (loc : Loc) (l : List ℕ) → loc ≢ null → Links q loc l → q.last ≢ null
last-not-null q loc [] h k e = h (sym k.1 ∙ e)
last-not-null q loc (x ∷ xs) h k e = cc (last_in q loc x xs k)

pub head-ne_null : head ≢ null
head-ne_null e = cc

pub last_away :
    (q : Tailq) (e : ℕ) (l : List ℕ) → Links q head l → has e l ≡ false → q.last ≢ link e
last_away q e [] h out = λ k. cc (h.1)
last_away q e (x ∷ xs) h out = apart q.last (link e) (x ∷ xs) (last_in q head x xs h) out
