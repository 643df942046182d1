-- ===== src/EnvValue/Laws.antt =====
-- Declaring, unsetting and reading variables (kern/syscall_all.c).
use buaa_os.Base.{
  ℕ, ◌+◌, ◌≤◌, ◌<◌, ◌≡◌, ◌≢◌, refl, ap, ◌∙◌, sym, Bool, true, false, not, ◌&&◌, Option, none, some,
  List, ltb, ◌==◌, if◌then◌else◌, arith, Bool-cases, inl, inr, ◌⊎◌, ==-refl, ==-ne, length,
}
use buaa_os.Vm.{update}
use buaa_os.EnvValue.{
  EnvValue, Values, Outcome, done, refused, overrun, equal, scan, named, visible, store, declare_at,
  unset_at, get_at, sys_declare_env_value, sys_unset_env_value, sys_get_env_value, max_value_num,
  max_name_len, max_value_len,
}
use buaa_os.EnvValue.Scan.{
  IsString, equal_refl, equal_sound, Found, scan-Found, scan-some, scan-none,
}

-- No two valid variables have the same name.
pub record Tidy (s : Values) : Type 0 where
  pub strings : (i : ℕ) → IsString (s.env_value i).name
  pub unique :
      (i j : ℕ)
      → i < s.env_value_num
      → j < s.env_value_num
      → (s.env_value i).valid ≡ true
      → (s.env_value j).valid ≡ true
      → (s.env_value i).name ≡ (s.env_value j).name
      → i ≡ j

-- The state after a store into entry `i`.
abbrev stored : ℕ → EnvValue → Values → Values
stored i v s = record s {
  env_value = update s.env_value i v;
  env_value_num = if i == s.env_value_num then s.env_value_num + 1 else s.env_value_num;
}

done_eq : {s t : Values} → done tt s ≡ done tt t → s ≡ t
done_eq {s = s} h =
    ap (λ (o : Outcome (Unit {0})). elim o [ done a x ↦ x | refused ↦ s | overrun ↦ s ]) h

not_overrun : {B : Type 0} {o : Outcome (Unit {0})} {s : Values} → o ≡ overrun → o ≡ done tt s → B
not_overrun q h = cc

not_refused : {B : Type 0} {o : Outcome (Unit {0})} {s : Values} → o ≡ refused → o ≡ done tt s → B
not_refused q h = cc

clash : {A : Type 0} {b : Bool} → b ≡ true → b ≡ false → A
clash t f = cc

store-done : (i : ℕ) (v : EnvValue) (s s' : Values) → store i v s ≡ done tt s' → s' ≡ stored i v s
unfolding store
store-done i v s s' h =
    elim (Bool-cases (
      not (
        ltb i max_value_num
        && (ltb (length v.name) max_name_len && ltb (length v.value) max_value_len)))) [
          | inl b ↦ not_overrun refl (rw b at h)
          | inr b ↦ sym (done_eq (rw b at h))
        ]

-- A declaration writes one entry: the first valid one of that name, or a new one at the end.
declared :
    (o : Option ℕ) (n : List ℕ) (v : EnvValue) (s s' : Values)
    → Found s.env_value_num 0 (named n s) o
    → declare_at o v s ≡ done tt s'
    → (i : ℕ) × (s' ≡ stored i v s)
      × (i ≤ s.env_value_num)
      × ((m : ℕ) → m < i → named n s m ≡ false)
      × ((i < s.env_value_num) × (named n s i ≡ true) ⊎ (i ≡ s.env_value_num))
declared none n v s s' f h = (
  s.env_value_num,
  store-done s.env_value_num v s s' h,
  omega arith,
  (λ m k. f m (omega arith) (omega arith)),
  inr refl,
)
declared (some i) n v s s' (a, b, c, d) h = elim (Bool-cases (not ((s.env_value i).mood == 0))) [
  | inl r ↦ not_refused refl (rw r at h)
  | inr r ↦ (
    i,
    store-done i v s s' (rw r at h),
    omega arith,
    (λ m k. d m (omega arith) k),
    inl (omega arith, c),
  )
]

abbrev entry : List ℕ → List ℕ → ℕ → ℕ → EnvValue
entry n v shell_id mood = record {
  name = n;
  value = v;
  shell_id = shell_id;
  mood = mood;
  valid = true;
}

module _ (n v : List ℕ) (shell_id mood : ℕ) (s s' : Values)
    (h : sys_declare_env_value n v shell_id mood s ≡ done tt s') where
  declared_entry :
      (i : ℕ) × (s' ≡ stored i (entry n v shell_id mood) s)
      × (i ≤ s.env_value_num)
      × ((m : ℕ) → m < i → named n s m ≡ false)
      × ((i < s.env_value_num) × (named n s i ≡ true) ⊎ (i ≡ s.env_value_num))
  unfolding sys_declare_env_value
  declared_entry =
      declared (scan s.env_value_num 0 (named n s)) n (entry n v shell_id mood) s s'
        (scan-Found s.env_value_num 0 (named n s)) h

-- The test of `sys_get_env_value` and `sys_unset_env_value`.
abbrev sees : List ℕ → ℕ → Values → ℕ → Bool
sees n shell_id s i = visible shell_id s i && equal (s.env_value i).name n

unnamed-unseen :
    (n : List ℕ) (shell_id : ℕ) (s : Values) (i : ℕ)
    → named n s i ≡ false
    → sees n shell_id s i ≡ false
unnamed-unseen n shell_id s i h = ground arith

-- What a shell has declared it reads back.
pub get-declare :
    (n v : List ℕ) (shell_id mood : ℕ) (s s' : Values)
    → sys_declare_env_value n v shell_id mood s ≡ done tt s'
    → sys_get_env_value n shell_id s' ≡ done v s'
unfolding sys_get_env_value
get-declare n v shell_id mood s s' h =
    let (i, p, le, early, at_i) = declared_entry n v shell_id mood s s' h in
    let t = stored i (entry n v shell_id mood) s in
    let seen : sees n shell_id t i ≡ true = rw (==-refl i) (rw (==-refl shell_id, equal_refl n)) in
    let found : scan t.env_value_num 0 (sees n shell_id t) ≡ some i =
      scan-some t.env_value_num (sees n shell_id t) i (ground arith) seen (λ m k.
        rw (==-ne m i (λ same. ground arith)) (unnamed-unseen n shell_id s m (early m k))) in
    rw p (rw found (rw (==-refl i)))

Tidy-store :
    (i : ℕ) (v : EnvValue) (s : Values)
    → Tidy s
    → IsString v.name
    → i ≤ s.env_value_num
    → ((j : ℕ)
        → j < s.env_value_num
        → (s.env_value j).valid ≡ true
        → (s.env_value j).name ≡ v.name
        → j ≡ i)
    → Tidy (stored i v s)
Tidy-store i v s t string low only = record {
  strings = λ j. elim (Bool-cases (j == i)) [ inl e ↦ rw e string | inr e ↦ rw e (t.strings j) ];
  unique = λ a b la lb va vb same. elim (Bool-cases (a == i)) [
    | inl p ↦ elim (Bool-cases (b == i)) [
      | inl q ↦ ground arith
      | inr q ↦
          let vb' : (s.env_value b).valid ≡ true = rw q at vb in
          let same' : v.name ≡ (s.env_value b).name = rw (p, q) at same in
          let at_i = only b (ground arith) vb' (sym same') in ground arith
    ]
    | inr p ↦
        let va' : (s.env_value a).valid ≡ true = rw p at va in
        elim (Bool-cases (b == i)) [
          | inl q ↦
              let same' : (s.env_value a).name ≡ v.name = rw (p, q) at same in
              let at_i = only a (ground arith) va' same' in ground arith
          | inr q ↦ t.unique a b (ground arith) (ground arith) va' (rw q at vb) (rw (p, q) at same)
        ]
  ];
}

named_by :
    (n : List ℕ) (s : Values) (j : ℕ)
    → (s.env_value j).valid ≡ true
    → (s.env_value j).name ≡ n
    → named n s j ≡ true
named_by n s j valid same = rw (same, valid) (rw (equal_refl n))

same_entry :
    (n : List ℕ) (s : Values) (i : ℕ)
    → Tidy s
    → IsString n
    → ((m : ℕ) → m < i → named n s m ≡ false)
    → ((i < s.env_value_num) × (named n s i ≡ true) ⊎ (i ≡ s.env_value_num))
    → (j : ℕ) → j < s.env_value_num
    → (s.env_value j).valid ≡ true
    → (s.env_value j).name ≡ n
    → j ≡ i
same_entry n s i t string early (inr e) j low valid same =
    clash (named_by n s j valid same) (early j (omega arith))
same_entry n s i t string early (inl (below, mine)) j low valid same =
    let both : equal (s.env_value i).name n ≡ true = ground arith in
    let valid_i : (s.env_value i).valid ≡ true = ground arith in
    t.unique j i low below valid valid_i
      (same ∙ sym (equal_sound (s.env_value i).name n (t.strings i) string both))

-- A declaration keeps the names of the valid variables apart.
pub declare-Tidy :
    (n v : List ℕ) (shell_id mood : ℕ) (s s' : Values)
    → Tidy s
    → IsString n
    → sys_declare_env_value n v shell_id mood s ≡ done tt s'
    → Tidy s'
declare-Tidy n v shell_id mood s s' t string h =
    let (i, p, le, early, at_i) = declared_entry n v shell_id mood s s' h in
    rw p
      (Tidy-store i (entry n v shell_id mood) s t string le (same_entry n s i t string early at_i))

hidden :
    (n v : List ℕ) (shell_id other mood : ℕ) (s : Values) (i m : ℕ)
    → Tidy s
    → IsString n
    → shell_id ≢ 0
    → other ≢ shell_id
    → ((j : ℕ)
        → j < s.env_value_num
        → (s.env_value j).valid ≡ true
        → (s.env_value j).name ≡ n
        → j ≡ i)
    → m < (stored i (entry n v shell_id mood) s).env_value_num
    → sees n other (stored i (entry n v shell_id mood) s) m ≡ false
hidden n v shell_id other mood s i m t string local ne only low = elim (Bool-cases (m == i)) [
  | inl e ↦ rw e (rw (==-ne shell_id other (λ q. ne (sym q)), ==-ne shell_id 0 local))
  | inr e ↦ rw e (elim (Bool-cases (sees n other s m)) [
    | inr t ↦ t
    | inl seen ↦
        let both : equal (s.env_value m).name n ≡ true = ground arith in
        let valid : (s.env_value m).valid ≡ true = ground arith in
        let at_i =
          only m (ground arith) valid
            (equal_sound (s.env_value m).name n (t.strings m) string both) in
        ground arith
  ])
]

-- In a tidy table, after a declaration of the name by one shell no other shell sees it, not even
-- one whose own variable it was, unless it is global.
pub get-declare_other :
    (n v : List ℕ) (shell_id other mood : ℕ) (s s' : Values)
    → Tidy s
    → IsString n
    → shell_id ≢ 0
    → other ≢ shell_id
    → sys_declare_env_value n v shell_id mood s ≡ done tt s'
    → sys_get_env_value n other s' ≡ refused
unfolding sys_get_env_value
get-declare_other n v shell_id other mood s s' t string local ne h =
    let (i, p, le, early, at_i) = declared_entry n v shell_id mood s s' h in
    let s1 = stored i (entry n v shell_id mood) s in
    let sound =
      Tidy-store i (entry n v shell_id mood) s t string le (same_entry n s i t string early at_i) in
    let unseen : scan s1.env_value_num 0 (sees n other s1) ≡ none =
      scan-none s1.env_value_num (sees n other s1) (λ m k.
        hidden n v shell_id other mood s i m t string local ne
          (same_entry n s i t string early at_i) k) in
    rw p (rw unseen)

abbrev unset : ℕ → Values → Values
unset i s = record s { env_value = update s.env_value i (record (s.env_value i) { valid = false }) }

seen_facts :
    (n : List ℕ) (shell_id : ℕ) (s : Values) (i : ℕ)
    → IsString (s.env_value i).name
    → IsString n
    → sees n shell_id s i ≡ true
    → ((s.env_value i).valid ≡ true) × ((s.env_value i).name ≡ n)
seen_facts n shell_id s i named_i string seen =
    let both : equal (s.env_value i).name n ≡ true = ground arith in
    (ground arith, equal_sound (s.env_value i).name n named_i string both)

unset-unseen :
    (n : List ℕ) (shell_id : ℕ) (s : Values) (i m : ℕ)
    → Tidy s
    → IsString n
    → i < s.env_value_num
    → m < s.env_value_num
    → sees n shell_id s i ≡ true
    → sees n shell_id (unset i s) m ≡ false
unset-unseen n shell_id s i m t string low_i low_m seen_i = elim (Bool-cases (m == i)) [
  | inl e ↦ rw e (ground arith)
  | inr e ↦ rw e (elim (Bool-cases (sees n shell_id s m)) [
    | inr u ↦ u
    | inl seen_m ↦
        let (valid_i, name_i) = seen_facts n shell_id s i (t.strings i) string seen_i in
        let (valid_m, name_m) = seen_facts n shell_id s m (t.strings m) string seen_m in
        let at_i = t.unique m i low_m low_i valid_m valid_i (name_m ∙ sym name_i) in ground arith
  ])
]

-- In a tidy table, what a shell unsets it does not read any more.
pub get-unset :
    (n : List ℕ) (shell_id : ℕ) (s s' : Values)
    → Tidy s
    → IsString n
    → sys_unset_env_value n shell_id s ≡ done tt s'
    → sys_get_env_value n shell_id s' ≡ refused
unfolding sys_get_env_value sys_unset_env_value
get-unset n shell_id s s' t string h =
    gone (scan s.env_value_num 0 (sees n shell_id s))
      (scan-Found s.env_value_num 0 (sees n shell_id s)) h
  where
    gone :
        (o : Option ℕ)
        → Found s.env_value_num 0 (sees n shell_id s) o
        → unset_at o s ≡ done tt s'
        → get_at (scan s'.env_value_num 0 (sees n shell_id s')) s' ≡ refused
    gone none f h = not_refused refl h
    gone (some i) (a, b, c, d) h = elim (Bool-cases (not ((s.env_value i).mood == 0))) [
      | inl r ↦ not_refused refl (rw r at h)
      | inr r ↦
          let after : unset i s ≡ s' = done_eq (rw r at h) in
          let unseen : scan s.env_value_num 0 (sees n shell_id (unset i s)) ≡ none =
            scan-none s.env_value_num (sees n shell_id (unset i s))
              (λ m k. unset-unseen n shell_id s i m t string (omega arith) k c) in
          rw (← after) (rw unseen)
    ]
