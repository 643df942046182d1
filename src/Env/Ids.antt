-- ===== src/Env/Ids.antt =====
-- Environment identifiers: `mkenvid` and `envid2env` of kern/env.c.
use buaa_os.Base.{
  ℕ, ◌+◌, ◌-◌, ◌*◌, ◌%◌, ◌^◌, ◌<◌, ◌≡◌, ◌≢◌, refl, ap, ◌∙◌, bit_or, Bool, true, false, not, ◌||◌,
  ◌&&◌, Option, none, some, ◌==◌, if◌then◌else◌, arith, bit_or-fields, Bool-cases, Option-cases,
  ◌⊎◌, inl, inr,
}
use buaa_os.Run.{Run, ok, fail, panic, enter, bad_env}
use buaa_os.Kernel.{Kernel, env_free_status, current-ok, current-null}
use buaa_os.Env.{id_of, mkenvid, envx, nenv, envid2env, permitted}

id_of_lem : (i e : ℕ) → e < nenv → id_of i e ≡ i % 2 ^ 21 * 2 ^ 11 + e
id_of_lem i e h = ap (λ (t : ℕ). bit_or t e) shifted ∙ bit_or-fields 11 (i % 2 ^ 21) e (omega arith)
  where
    shifted : i * 2 ^ 11 % 2 ^ 32 ≡ i % 2 ^ 21 * 2 ^ 11
    shifted = omega arith

-- What `mkenvid` gives: its number, and the next counter.
mkenvid-ok :
    (e : ℕ) (k : Kernel)
    → mkenvid e k ≡ ok (id_of ((k.ids + 1) % 2 ^ 32) e) (record k { ids = (k.ids + 1) % 2 ^ 32 })
unfolding mkenvid
mkenvid-ok e k = refl

-- An identifier names the slot that it was made for, it is not 0, and while the counter stays
-- below 2^21 - 1 two calls give different identifiers unless both slot and counter are the same.
pub mkenvid_unique :
    (e f : ℕ) (k j k' j' : Kernel) (a b : ℕ)
    → e < nenv
    → f < nenv
    → k.ids < 2 ^ 21 - 1
    → j.ids < 2 ^ 21 - 1
    → mkenvid e k ≡ ok a k'
    → mkenvid f j ≡ ok b j'
    → (envx a ≡ e) × (a ≢ 0) × (k'.ids ≡ k.ids + 1) × (a ≡ b → (e ≡ f) × (k.ids ≡ j.ids))
unfolding mkenvid
mkenvid_unique e f k j k' j' a b he hf hk hj p q =
    let pa : a ≡ id_of ((k.ids + 1) % 2 ^ 32) e = ground arith in
    let pb : b ≡ id_of ((j.ids + 1) % 2 ^ 32) f = ground arith in
    let ia = id_of_lem ((k.ids + 1) % 2 ^ 32) e he in
    let ib = id_of_lem ((j.ids + 1) % 2 ^ 32) f hf in
    (
      omega (arith, pa, ia),
      omega (arith, pa, ia),
      ground arith,
      λ same. omega (arith, pa, pb, ia, ib),
    )

-- The environment `e` may be manipulated by the running one.
abbrev pub IsOwn : Kernel → ℕ → Type 0
IsOwn k e =
    (c : ℕ) × (k.curenv ≡ some c) × ((e ≡ c) ⊎ ((k.envs e).env_parent_id ≡ (k.envs c).env_id))

-- The outcomes of `envid2env`: for identifier 0 always `curenv`; for another one the environment
-- of its slot, which is in use, has the identifier asked for and, if permission is checked, is the
-- running one or its child, or -E_BAD_ENV, where one of these fails. The state does not change.
abbrev pub EnvidOutcome : Kernel → ℕ → Bool → Run Kernel (Option ℕ) → Type 0
EnvidOutcome k envid checkperm (ok none k') = (k' ≡ k) × (envid ≡ 0) × (k.curenv ≡ none)
EnvidOutcome k envid checkperm (ok (some e) k') =
    (k' ≡ k)
    × ((envid ≡ 0) × (k.curenv ≡ some e)
        ⊎ (envid ≢ 0)
          × (e ≡ envx envid)
          × ((k.envs e).env_status ≢ env_free_status)
          × ((k.envs e).env_id ≡ envid)
          × (checkperm ≡ true → IsOwn k e))
EnvidOutcome k envid checkperm (fail x k') =
    (x ≡ bad_env)
    × (k' ≡ k)
    × (envid ≢ 0)
    × (((k.envs (envx envid)).env_status ≡ env_free_status)
        ⊎ ((k.envs (envx envid)).env_id ≢ envid)
        ⊎ (checkperm ≡ true) × ¬ IsOwn k (envx envid))
EnvidOutcome k envid checkperm panic = (envid ≢ 0) × (checkperm ≡ true) × (k.curenv ≡ none)
EnvidOutcome k envid checkperm (enter k') = ⊥

-- `e` is what `permitted` accepts for the running environment `c`.
IsOwn-of :
    (k : Kernel) (e c : ℕ)
    → k.curenv ≡ some c
    → (not (e == c) && not ((k.envs e).env_parent_id == (k.envs c).env_id)) ≡ false
    → IsOwn k e
IsOwn-of k e c h t = (c, h, ground arith)

not-IsOwn_of :
    (k : Kernel) (e c : ℕ)
    → k.curenv ≡ some c
    → (not (e == c) && not ((k.envs e).env_parent_id == (k.envs c).env_id)) ≡ true
    → ¬ IsOwn k e
not-IsOwn_of k e c h t (d, g, own) =
    let same : d ≡ c = ground arith in
    let own' : (e ≡ c) ⊎ ((k.envs e).env_parent_id ≡ (k.envs c).env_id) = rw (← same) own in
    refute own'
  where
    refute : (e ≡ c) ⊎ ((k.envs e).env_parent_id ≡ (k.envs c).env_id) → ⊥
    refute (inl p) = ground arith
    refute (inr p) = ground arith

-- The environment that `envid` names is in use under that identifier.
abbrev refused : Kernel → ℕ → Bool
refused k envid =
    ((k.envs (envx envid)).env_status == env_free_status)
    || not ((k.envs (envx envid)).env_id == envid)

in_use :
    (k : Kernel) (envid : ℕ)
    → refused k envid ≡ false
    → ((k.envs (envx envid)).env_status ≢ env_free_status) × ((k.envs (envx envid)).env_id ≡ envid)
in_use k envid r = (ground arith, ground arith)

permitted_outcome :
    (k : Kernel) (envid : ℕ)
    → (envid == 0) ≡ false
    → refused k envid ≡ false
    → EnvidOutcome k envid true (permitted (envx envid) (k.envs (envx envid)) k)
unfolding permitted
permitted_outcome k envid z r = elim (Option-cases k.curenv) [
  | inl e ↦ rw (current-null k e) (not_zero, refl, e)
  | inr (c, e) ↦ rw (current-ok k c e) (elim (Bool-cases (foreign c)) [
    | inl t ↦ rw t (refl, refl, not_zero, inr (inr (refl, not-IsOwn_of k (envx envid) c e t)))
    | inr t ↦
        let (used, named) = in_use k envid r in
        rw t (refl, inr (not_zero, refl, used, named, λ _. IsOwn-of k (envx envid) c e t))
  ])
]
  where
    not_zero : envid ≢ 0
    not_zero h = ground arith

    foreign : ℕ → Bool
    foreign c =
        not (envx envid == c) && not ((k.envs (envx envid)).env_parent_id == (k.envs c).env_id)

named_outcome :
    (k : Kernel) (envid : ℕ) (checkperm : Bool)
    → (envid == 0) ≡ false
    → EnvidOutcome k envid checkperm (envid2env envid checkperm k)
unfolding envid2env
named_outcome k envid checkperm z = rw z (elim (Bool-cases (refused k envid)) [
  | inl r ↦ rw r (refl, refl, not_zero, why r)
  | inr r ↦ rw r (allowed checkperm r)
])
  where
    not_zero : envid ≢ 0
    not_zero h = ground arith

    why :
        refused k envid ≡ true
        → ((k.envs (envx envid)).env_status ≡ env_free_status)
          ⊎ ((k.envs (envx envid)).env_id ≢ envid)
          ⊎ (checkperm ≡ true) × ¬ IsOwn k (envx envid)
    why r = elim (Bool-cases ((k.envs (envx envid)).env_status == env_free_status)) [
      | inl f ↦ inl (ground arith)
      | inr f ↦ inr (inl (λ e. ground arith))
    ]

    allowed :
        (check : Bool)
        → refused k envid ≡ false
        → EnvidOutcome k envid check (
            (if check then permitted (envx envid) (k.envs (envx envid)) else ok (some (envx envid)))
              k)
    allowed true r = permitted_outcome k envid z r
    allowed false r =
        let (used, named) = in_use k envid r in (refl, inr (not_zero, refl, used, named, λ t. cc))

-- For identifier 0 `envid2env` gives `curenv`, null or not, and nothing else. For another identifier
-- it gives the environment of the slot if that one is in use, has the identifier and, where
-- permission is checked, is the running environment or its child, and -E_BAD_ENV only if one of
-- these fails; it panics only where permission is checked without a running environment.
pub envid2env_outcome :
    (k : Kernel) (envid : ℕ) (checkperm : Bool)
    → EnvidOutcome k envid checkperm (envid2env envid checkperm k)
envid2env_outcome k envid checkperm = elim (Bool-cases (envid == 0)) [
  | inl z ↦ unfold envid2env in rw z (own k.curenv refl (ground arith))
  | inr z ↦ named_outcome k envid checkperm z
]
  where
    own : (o : Option ℕ) → k.curenv ≡ o → envid ≡ 0 → EnvidOutcome k envid checkperm (ok o k)
    own none e zero_id = (refl, zero_id, e)
    own (some c) e zero_id = (refl, inl (zero_id, e))
