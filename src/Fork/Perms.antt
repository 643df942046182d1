-- ===== src/Fork/Perms.antt =====
-- The permission bits that `duppage` and `cow_entry` of user/lib/fork.c give.
use buaa_os.Base.{
  ℕ, ◌-◌, ◌<◌, ◌≡◌, refl, sym, ◌∙◌, bit_or, Bool, true, false, not, ◌&&◌, ◌||◌, ltb, if◌then◌else◌,
  arith, passes_below, passes_below_at, ltb→lt,
}
use buaa_os.Fork.{pte_cow, pte_library, pte_dirty, has_flag}

-- A page that may be written and is not for sharing.
abbrev pub owned : ℕ → Bool
owned p = has_flag p pte_dirty && not (has_flag p pte_library)

-- The permission that `duppage` gives, and the one that `cow_entry` gives.
abbrev pub shared_perm : ℕ → ℕ
shared_perm p = bit_or p pte_cow - pte_dirty

abbrev pub private_perm : ℕ → ℕ
private_perm p = bit_or (p - pte_cow) pte_dirty

pub dup_table :
    passes_below
      (λ p.
        not (has_flag p pte_dirty)
        || ((not (has_flag (shared_perm p) pte_dirty) && has_flag (shared_perm p) pte_cow)
            && (ltb (shared_perm p) 4096
                && (has_flag p pte_library || not (has_flag (shared_perm p) pte_library)))))
      4096
    ≡ true
unfolding passes_below
dup_table = refl

pub cow_table :
    passes_below
      (λ p.
        not (has_flag p pte_cow)
        || ((has_flag (private_perm p) pte_dirty && ltb (private_perm p) 4096)
            && (if has_flag p pte_library
                then has_flag (private_perm p) pte_library
                else not (has_flag (private_perm p) pte_library))))
      4096
    ≡ true
unfolding passes_below
cow_table = refl

pub second : (a b : Bool) → (not a || b) ≡ true → a ≡ true → b ≡ true
second a b e f = ground arith

pub both : (a b : Bool) → (a && b) ≡ true → (a ≡ true) × (b ≡ true)
both a b e = (ground arith, ground arith)

pub is_off : (a : Bool) → not a ≡ true → a ≡ false
is_off a e = ground arith

pub shared_perm_lem :
    (p : ℕ)
    → p < 4096
    → has_flag p pte_dirty ≡ true
    → (has_flag (shared_perm p) pte_dirty ≡ false)
      × (has_flag (shared_perm p) pte_cow ≡ true)
      × (shared_perm p < 4096)
      × ((has_flag p pte_library || not (has_flag (shared_perm p) pte_library)) ≡ true)
shared_perm_lem p h d =
    let (a, b) =
      both _ _ (second (has_flag p pte_dirty) _ (passes_below_at _ 4096 p h dup_table) d) in
    let (c, e) = both _ _ a in
    let (g, l) = both _ _ b in
    (is_off (has_flag (shared_perm p) pte_dirty) c, e, ltb→lt (shared_perm p) 4096 g, l)

-- A page that `fork` does not leave shared for good can be written: it may be written at once, or is
-- marked as copy-on-write.
abbrev pub Writable : ℕ → Type 0
Writable p =
    (has_flag p pte_library ≡ false) × ((has_flag p pte_dirty || has_flag p pte_cow) ≡ true)

pub shared_perm-Writable :
    (p : ℕ)
    → p < 4096
    → has_flag p pte_dirty ≡ true
    → has_flag p pte_library ≡ false
    → Writable (shared_perm p)
shared_perm-Writable p h d l =
    let (off, cow, _, t) = shared_perm_lem p h d in
    let kept : not (has_flag (shared_perm p) pte_library) ≡ true = sym (rw l refl) ∙ t in
    (is_off (has_flag (shared_perm p) pte_library) kept, rw (off, cow))

pub private_perm_lem :
    (p : ℕ)
    → p < 4096
    → has_flag p pte_cow ≡ true
    → (has_flag (private_perm p) pte_dirty ≡ true)
      × (private_perm p < 4096)
      × ((if has_flag p pte_library
            then has_flag (private_perm p) pte_library
            else not (has_flag (private_perm p) pte_library))
          ≡ true)
private_perm_lem p h d =
    let (a, b) =
      both _ _ (second (has_flag p pte_cow) _ (passes_below_at _ 4096 p h cow_table) d) in
    let (c, e) = both _ _ a in (c, ltb→lt (private_perm p) 4096 e, b)
