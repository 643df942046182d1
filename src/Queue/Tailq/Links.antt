-- ===== src/Queue/Tailq/Links.antt =====
-- The list that a tail queue stands for.
use buaa_os.Base.{
  ℕ, ◌≡◌, Bool, true, false, none, some, List, [], ◌∷◌, arith, has, Distinct, ==-refl, ◌∙◌,
}
use buaa_os.Queue.Tailq.{Loc, null, head, link, Tailq, deref}

-- From the pointer at `loc` the links lead through `l`, each element points back to the pointer
-- before it, and `last` is the address of the final null pointer.
abbrev pub Links : Tailq → Loc → List ℕ → Type 0
Links q loc [] = (deref loc q ≡ none) × (q.last ≡ loc)
Links q loc (x ∷ xs) = (deref loc q ≡ some x) × (q.prev x ≡ loc) × Links q (link x) xs

pub record IsQueue (q : Tailq) (l : List ℕ) : Type 0 where
  pub links : Links q head l
  pub distinct : Distinct l

-- Whether a pointer lies in an element of `l`.
abbrev pub loc_in : Loc → List ℕ → Bool
loc_in null l = false
loc_in head l = false
loc_in (link x) l = has x l

-- The links do not depend on what lies outside the list.
pub frame :
    (q q' : Tailq) (loc : Loc) (l : List ℕ)
    → Links q loc l
    → deref loc q' ≡ deref loc q
    → q'.last ≡ q.last
    → ((x : ℕ) → has x l ≡ true → (q'.next x ≡ q.next x) × (q'.prev x ≡ q.prev x))
    → Links q' loc l
frame q q' loc [] h d e same = (d ∙ h.0, e ∙ h.1)
frame q q' loc (x ∷ xs) h d e same =
    let here = same x (rw ==-refl) in
    (d ∙ h.0, here.1 ∙ h.1, frame q q' (link x) xs h.2 here.0 e (λ y k. same y (ground arith)))
