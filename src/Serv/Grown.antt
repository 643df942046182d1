-- ===== src/Serv/Grown.antt =====
-- What no step of fs/serv.c undoes, and how it composes.
use buaa_os.Base.{
  ℕ, ◌%◌, ◌^◌, ◌≤◌, ◌<◌, ◌≡◌, refl, ◌∙◌, not, ◌||◌, Option, none, some, ◌==◌, arith, Bool-cases,
  inl, inr,
}
use buaa_os.Run.{Run, ok, fail, panic, enter, Cmd, ◌>>=◌, and_then, After}
use buaa_os.Fs.{Fs, Ptr}
use buaa_os.Serv.{
  Serv, Value, code, Sent, no_page, filefd_page, block_page, within, open_lookup, ipc_send,
  or_answer, try_call, file_of,
}

-- The id of an entry is a word that names the entry.
abbrev pub Tidy : Serv → Type 0
Tidy s = (i : ℕ) → i < 1024 → (s.o_fileid i % 1024 ≡ i) × (s.o_fileid i < 2 ^ 32)

-- The entry stands for the same file with the same id.
abbrev pub Same : ℕ → Serv → Serv → Type 0
Same i s s' =
    (s'.o_fileid i ≡ s.o_fileid i) × (s'.o_file i ≡ s.o_file i) × (s'.o_mode i ≡ s.o_mode i)

-- What no request undoes.
pub record Grown (s s' : Serv) : Type 0 where
  pub held : (i : ℕ) → 2 ≤ s.refs i → (s'.refs i ≡ s.refs i) × Same i s s'
  pub tidy : Tidy s → Tidy s'

abbrev pub Grows : {A : Type 0} → Cmd Serv A → Type 0
Grows m = (s : Serv) → After (Grown s) (m s)

pub Grown-trans : {s s' s'' : Serv} → Grown s s' → Grown s' s'' → Grown s s''
Grown-trans g h = record {
  held = λ i k.
      let (a, (b, c, d)) = g.held i k in
      let (a', (b', c', d')) = h.held i (omega arith) in (a' ∙ a, (b' ∙ b, c' ∙ c, d' ∙ d));
  tidy = λ t. h.tidy (g.tidy t);
}

pub Grown-refl : (s : Serv) → Grown s s
Grown-refl s = record { held = λ i k. (refl, (refl, refl, refl)); tidy = λ t. t }

-- An outcome that follows a change.
pub widen :
    {A : Type 0} {s t : Serv} → Grown s t → (o : Run Serv A) → After (Grown t) o → After (Grown s) o
widen x (ok b u) y = Grown-trans x y
widen x (fail e u) y = Grown-trans x y
widen x panic y = tt
widen x (enter u) y = Grown-trans x y

module _ {A B : Type 0} where
  pub run_on :
      (s : Serv) (r : Run Serv A) (k : A → Cmd Serv B)
      → After (Grown s) r
      → ((a : A) → Grows (k a))
      → After (Grown s) (and_then r k)
  run_on s (ok a t) k g h = widen g (k a t) (h a t)
  run_on s (fail e t) k g h = g
  run_on s panic k g h = tt
  run_on s (enter t) k g h = g

  pub then_Grows :
      (m : Cmd Serv A) (k : A → Cmd Serv B) → Grows m → ((a : A) → Grows (k a)) → Grows (m >>= k)
  then_Grows m k g h s = run_on s (m s) k (g s) h

pub within-Grown : {A : Type 0} (s : Serv) (r : Run Fs A) → After (Grown s) (within s r)
within-Grown s (ok a t) = record { held = λ i k. (refl, (refl, refl, refl)); tidy = λ t. t }
within-Grown s (fail e t) = record { held = λ i k. (refl, (refl, refl, refl)); tidy = λ t. t }
within-Grown s panic = tt
within-Grown s (enter t) = record { held = λ i k. (refl, (refl, refl, refl)); tidy = λ t. t }

-- A message that is not the page of a Filefd leaves the counts of mappings as they are.
abbrev pub NoFilefd : Sent → Type 0
NoFilefd no_page = Unit
NoFilefd (filefd_page j) = ⊥
NoFilefd (block_page b) = Unit

pub ipc_send-Grows :
    (envid : ℕ) (v : Value) (page : Sent) → NoFilefd page → Grows (ipc_send envid v page)
ipc_send-Grows envid v no_page n s = record {
  held = λ i k. (refl, (refl, refl, refl));
  tidy = λ t. t;
}
ipc_send-Grows envid v (block_page b) n s = record {
  held = λ i k. (refl, (refl, refl, refl));
  tidy = λ t. t;
}
ipc_send-Grows envid v (filefd_page j) n s = elim n [ ]

pub try_call-Grows :
    {A : Type 0} (envid : ℕ) (m : Cmd Serv A) (next : A → Cmd Serv (Unit {0}))
    → Grows m
    → ((a : A) → Grows (next a))
    → Grows (try_call envid m next)
try_call-Grows {A} envid m next g h s = at_end (m s) (g s)
  where
    at_end : (r : Run Serv A) → After (Grown s) r → After (Grown s) (or_answer envid next r)
    at_end (ok a t) x = widen x (next a t) (h a t)
    at_end (fail e t) x = Grown-trans x (ipc_send-Grows envid (code e) no_page tt t)
    at_end panic x = tt
    at_end (enter t) x = x

pub open_lookup-Grows : (fileid : ℕ) → Grows (open_lookup fileid)
unfolding open_lookup
open_lookup-Grows fileid s =
    elim (Bool-cases
      ((s.refs (fileid % 1024) == 1) || not (s.o_fileid (fileid % 1024) == fileid))) [
        | inl e ↦ rw e (Grown-refl s)
        | inr e ↦ rw e (Grown-refl s)
      ]

pub file_of-Grows : (i : ℕ) → Grows (file_of i)
file_of-Grows i s = known (s.o_file i)
  where
    known : (f : Option Ptr) → After (Grown s) (elim f [ none ↦ panic | some p ↦ ok p s ])
    known none = tt
    known (some p) = Grown-refl s
