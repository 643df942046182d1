-- ===== src/Fs/Dir/Path.antt =====
-- `walk_path` of fs/fs.c follows the elements of a path.
use buaa_os.Base.{
  ℕ, zero, suc, ◌≤◌, ◌≡◌, refl, ap, ◌∙◌, sym, Bool, false, not, ◌&&◌, Option, none, some, List, [],
  ◌∷◌, leb, ◌==◌, if◌then◌else◌, length, arith, Bool-cases, inl, inr,
}
use buaa_os.Run.{Run, ok, fail, panic, enter, not_found, bad_path, Cmd}
use buaa_os.Fs.Dir.{
  Walked, found, missing, maxnamelen, skip_slash, element, after_element, is_not_found, is_empty,
  looked, walk_from, walk_path, dir_lookup, is_directory,
}
use buaa_os.Fs.{Fs, s_root}

-- A character of an element, before the elements of the characters behind it.
abbrev pub joined : ℕ → List (List ℕ) → List (List ℕ)
joined c [] = (c ∷ []) ∷ []
joined c (n ∷ ns) = (c ∷ n) ∷ ns

abbrev pub before : ℕ → List ℕ → List (List ℕ) → List (List ℕ)
before c [] ns = (c ∷ []) ∷ ns
before c (d ∷ ds) ns = if d == 47 then (c ∷ []) ∷ ns else joined c ns

-- The elements of a path: its longest pieces without `/`.
abbrev pub elements : List ℕ → List (List ℕ)
elements [] = []
elements (c ∷ cs) = if c == 47 then elements cs else before c cs (elements cs)

elements-skip_slash : (p : List ℕ) → elements (skip_slash p) ≡ elements p
elements-skip_slash [] = refl
elements-skip_slash (c ∷ cs) = elim (Bool-cases (c == 47)) [
  | inl e ↦ rw e (elements-skip_slash cs)
  | inr e ↦ rw (e, e)
]

elements-cons :
    (c : ℕ) (cs : List ℕ)
    → (c == 47) ≡ false
    → elements (c ∷ cs) ≡ (c ∷ element cs) ∷ elements (after_element cs)
elements-cons c [] h = rw h
elements-cons c (d ∷ ds) h = rw h (elim (Bool-cases (d == 47)) [
  | inl e ↦ rw (e, e)
  | inr e ↦ let tail = elements-cons d ds e in rw e (ap (joined c) (rw e at tail))
])

length-skip_slash : (p : List ℕ) → length (skip_slash p) ≤ length p
length-skip_slash [] = omega arith
length-skip_slash (c ∷ cs) = ground (arith, length-skip_slash cs)

length-after_element : (p : List ℕ) → length (after_element p) ≤ length p
length-after_element [] = omega arith
length-after_element (c ∷ cs) = ground (arith, length-after_element cs)

-- Whether a path begins with `/`.
abbrev leads : List ℕ → Bool
leads [] = false
leads (c ∷ cs) = c == 47

leads-skip_slash : (p : List ℕ) → leads (skip_slash p) ≡ false
leads-skip_slash [] = refl
leads-skip_slash (c ∷ cs) = elim (Bool-cases (c == 47)) [
  | inl e ↦ rw e (leads-skip_slash cs)
  | inr e ↦ rw (e, e)
]

is_empty-elements : (p : List ℕ) → leads p ≡ false → is_empty p ≡ is_empty (elements p)
is_empty-elements [] h = refl
is_empty-elements (c ∷ cs) h = rw (elements-cons c cs h)

module _ {S F : Type 0} (lookup : F → List ℕ → Cmd S F) (is_dir : F → S → Bool) where
  -- The elements are looked up one after the other, each in the directory that the one before
  -- it is; if the last is missing, its directory and its name are the result.
  abbrev pub answered :
      List (List ℕ) → (Option F → F → Cmd S (Walked F)) → F → List ℕ → Run S F → Run S (Walked F)
  answered ns next dir n (ok f s) = next (some dir) f s
  answered ns next dir n (fail e s) =
      if is_not_found e && is_empty ns then ok (missing dir n) s else fail e s
  answered ns next dir n panic = panic
  answered ns next dir n (enter s) = enter s

  abbrev pub follow : List (List ℕ) → Option F → F → Cmd S (Walked F)
  follow [] dir file s = ok (found dir file) s
  follow (n ∷ ns) dir file s =
      if leb maxnamelen (length n)
      then fail bad_path s
      else if not (is_dir file s)
      then fail not_found s
      else answered ns (follow ns) file n (lookup file n s)

  module _ (next : List ℕ → Option F → F → Cmd S (Walked F)) where
    -- The code's round and the round of `follow` agree, where the code's next rounds do.
    looked-answered :
        (dir : F) (name rest : List ℕ) (r : Run S F)
        → leads rest ≡ false
        → ((d : Option F) (f : F) (s : S) → next rest d f s ≡ follow (elements rest) d f s)
        → looked lookup is_dir next dir name rest r
          ≡ answered (elements rest) (follow (elements rest)) dir name r
    looked-answered dir name rest (ok f s) h ih = ih (some dir) f s
    looked-answered dir name rest (fail e s) h ih = rw (is_empty-elements rest h)
    looked-answered dir name rest panic h ih = refl
    looked-answered dir name rest (enter s) h ih = refl

  walk_from-follow :
      (n : ℕ) (path : List ℕ) (dir : Option F) (file : F) (s : S)
      → leads path ≡ false
      → length path ≤ n
      → walk_from lookup is_dir n path dir file s ≡ follow (elements path) dir file s
  unfolding walk_from
  walk_from-follow zero [] dir file s h k = refl
  walk_from-follow (suc n) [] dir file s h k = refl
  walk_from-follow zero (c ∷ cs) dir file s h k = ground arith
  walk_from-follow (suc n) (c ∷ cs) dir file s h k =
      let rest = skip_slash (after_element cs) in
      let shorter : length rest ≤ n =
        omega (arith, length-skip_slash (after_element cs), length-after_element cs) in
      let same : elements (after_element cs) ≡ elements rest =
        sym (elements-skip_slash (after_element cs)) in
      let step =
        looked-answered (walk_from lookup is_dir n) file (c ∷ element cs) rest
          (lookup file (c ∷ element cs) s) (leads-skip_slash (after_element cs))
          (λ d f t. walk_from-follow n rest d f t (leads-skip_slash (after_element cs)) shorter) in
      rw (elements-cons c cs h, same) (rw h (rw step))

-- `walk_path` looks up the elements of the path, its longest pieces without `/`, one in the other
-- from the root on; a last element that is missing is reported with its directory.
pub walk_path-follow :
    (path : List ℕ) (s : Fs)
    → walk_path path s ≡ follow dir_lookup is_directory (elements path) none s_root s
unfolding walk_path
walk_path-follow path s =
    walk_from-follow dir_lookup is_directory (length path) (skip_slash path) none s_root s
      (leads-skip_slash path) (length-skip_slash path)
    ∙ ap (λ (l : List (List ℕ)). follow dir_lookup is_directory l none s_root s)
        (elements-skip_slash path)
