-- ===== src/EnvValue.antt =====
-- The environment variables and the working directory that kern/syscall_all.c keeps for shells. A
-- string is the list of its characters before the final 0.
pub mod Scan
pub mod Laws
use buaa_os.Base.{
  ℕ, zero, suc, ◌+◌, ◌-◌, ◌*◌, ◌%◌, ◌^◌, Bool, true, false, not, ◌&&◌, ◌||◌, Option, none, some,
  List, [], ◌∷◌, ◌++◌, ltb, leb, ◌==◌, if◌then◌else◌, length,
}
use buaa_os.Vm.{update}

-- `strcmp` of lib/string.c: 0, -1 and 1.
pub data Order : Type 0 where
  same below above : Order

-- The end of a string is the character 0.
abbrev pub strcmp : List ℕ → List ℕ → Order
strcmp [] [] = same
strcmp [] (q ∷ qs) = if ltb 0 q then below else same
strcmp (p ∷ ps) [] = if ltb p 0 then below else if ltb 0 p then above else same
strcmp (p ∷ ps) (q ∷ qs) = if p == q then strcmp ps qs else if ltb p q then below else above

-- `strcmp(p, q) == 0`.
abbrev pub is_same : Order → Bool
is_same same = true
is_same below = false
is_same above = false

abbrev pub equal : List ℕ → List ℕ → Bool
equal p q = is_same (strcmp p q)

pub record EnvValue : Type 0 where
  pub name : List ℕ
  pub value : List ℕ
  pub shell_id : ℕ
  pub mood : ℕ
  pub valid : Bool

-- `shell_num`, `env_value_num`, `env_value` and `cur_path`.
pub record Values : Type 0 where
  pub shell_num : ℕ
  pub env_value_num : ℕ
  pub env_value : ℕ → EnvValue
  pub cur_path : List ℕ

abbrev pub max_value_num : ℕ
max_value_num = 128

abbrev pub max_name_len : ℕ
max_name_len = 32

abbrev pub max_value_len : ℕ
max_value_len = 32

abbrev pub max_path_len : ℕ
max_path_len = 128

-- How a call ends: with a result, with its error (-E_ENV_VALUE or -E_CUR_PATH), or with a write
-- behind the end of an array, after which the memory of the kernel is not known.
pub data Outcome (A : Type 0) : Type 0 where
  done : A → Values → Outcome A
  refused : Outcome A
  overrun : Outcome A

unfoldable pub sys_create_shell_id : Values → Outcome ℕ
sys_create_shell_id s = done s.shell_num (record s { shell_num = (s.shell_num + 1) % 2 ^ 32 })

-- `for (i = 0; i < env_value_num; i++)` up to the first index that passes the test; `n` rounds are
-- left.
abbrev pub scan : ℕ → ℕ → (ℕ → Bool) → Option ℕ
scan zero i test = none
scan (suc n) i test = let rest = scan n (i + 1) test in if test i then some i else rest

abbrev pub named : List ℕ → Values → ℕ → Bool
named n s i = equal (s.env_value i).name n && (s.env_value i).valid

-- A shell sees its own variables and the global ones.
abbrev pub visible : ℕ → Values → ℕ → Bool
visible shell_id s i =
    (((s.env_value i).shell_id == shell_id) || ((s.env_value i).shell_id == 0))
    && (s.env_value i).valid

-- The `strcpy` calls into entry `i`, and the fields.
unfoldable pub store : ℕ → EnvValue → Values → Outcome (Unit {0})
store i v s =
    if not (
      ltb i max_value_num
      && (ltb (length v.name) max_name_len && ltb (length v.value) max_value_len))
    then overrun
    else done tt (record s {
      env_value = update s.env_value i v;
      env_value_num = if i == s.env_value_num then s.env_value_num + 1 else s.env_value_num;
    })

abbrev pub declare_at : Option ℕ → EnvValue → Values → Outcome (Unit {0})
declare_at none v s = store s.env_value_num v s
declare_at (some i) v s = if not ((s.env_value i).mood == 0) then refused else store i v s

unfoldable pub sys_declare_env_value : List ℕ → List ℕ → ℕ → ℕ → Values → Outcome (Unit {0})
unfolding store
sys_declare_env_value n v shell_id mood s =
    declare_at (scan s.env_value_num 0 (named n s))
      (record { name = n; value = v; shell_id = shell_id; mood = mood; valid = true }) s

abbrev pub unset_at : Option ℕ → Values → Outcome (Unit {0})
unset_at none s = refused
unset_at (some i) s =
    if not ((s.env_value i).mood == 0)
    then refused
    else done tt
        (record s { env_value = update s.env_value i (record (s.env_value i) { valid = false }) })

unfoldable pub sys_unset_env_value : List ℕ → ℕ → Values → Outcome (Unit {0})
sys_unset_env_value n shell_id s =
    unset_at (scan s.env_value_num 0 (λ i. visible shell_id s i && equal (s.env_value i).name n)) s

-- `sys_get_env_value` with a name: what is stored at `buf`.
abbrev pub get_at : Option ℕ → Values → Outcome (List ℕ)
get_at none s = refused
get_at (some i) s = done (s.env_value i).value s

unfoldable pub sys_get_env_value : List ℕ → ℕ → Values → Outcome (List ℕ)
sys_get_env_value n shell_id s =
    get_at (scan s.env_value_num 0 (λ i. visible shell_id s i && equal (s.env_value i).name n)) s

unfoldable pub sys_get_cur_path : Values → Outcome (List ℕ)
sys_get_cur_path s = done s.cur_path s

unfoldable pub sys_set_cur_path : List ℕ → Values → Outcome (Unit {0})
sys_set_cur_path path s =
    if leb max_path_len (length path) then refused else done tt (record s { cur_path = path })
