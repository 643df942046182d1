-- ===== src/Print/Number.antt =====
-- `print_num` of lib/print.c writes the number that it is given.
use buaa_os.Base.{
  ℕ, zero, suc, ◌+◌, ◌-◌, ◌*◌, ◌/◌, ◌%◌, ◌^◌, ◌≤◌, ◌<◌, ◌≡◌, ◌≢◌, refl, ap, ◌∙◌, Bool, true, false,
  ◌&&◌, ltb, leb, ◌==◌, if◌then◌else◌, arith, Bool-cases, inl, inr, ==-refl, ==-ne,
}
use native.Mathlib.Nat.{pow-suc, div-add-mod, mod-lt, mul-le-mul_right, mul_comm}
use buaa_os.Vm.{update}
use buaa_os.Print.{digit, write_digits, fill, swap_ends, pad, finish_num, print_num}

-- The digit that a character stands for.
abbrev pub undigit : ℕ → ℕ
undigit c = if leb c 57 then c - 48 else if leb c 90 then c - 55 else c - 87

-- The number that the characters of `buf` from `p` on stand for, `n` of them, the lowest first.
abbrev low_first : ℕ → ℕ → (ℕ → ℕ) → ℕ → ℕ
low_first base zero buf p = 0
low_first base (suc n) buf p = undigit (buf p) + base * low_first base n buf (p + 1)

-- The number that the first `n` characters from `p` on stand for, read in writing order.
abbrev pub number : ℕ → ℕ → (ℕ → ℕ) → ℕ → ℕ
number base zero buf p = 0
number base (suc n) buf p = number base n buf p * base + undigit (buf (p + n))

undigit-digit : (upcase : Bool) (t : ℕ) → t < 16 → undigit (digit upcase t) ≡ t
undigit-digit true t h = ground arith
undigit-digit false t h = ground arith

low_first_same :
    (base n : ℕ) (f g : ℕ → ℕ) (p : ℕ)
    → ((i : ℕ) → p ≤ i → i < p + n → f i ≡ g i)
    → low_first base n f p ≡ low_first base n g p
low_first_same base zero f g p h = refl
low_first_same base (suc n) f g p h =
    let head : f p ≡ g p = h p (omega arith) (omega arith) in
    let tail = low_first_same base n f g (p + 1) (λ i q r. h i (omega arith) (omega arith)) in
    rw (head, tail)

-- What the digits loop leaves: at least one digit, the number, and the rest of the buffer.
record Written (base u p : ℕ) (buf : ℕ → ℕ) (r : ℕ × (ℕ → ℕ)) : Type 0 where
  digits : ℕ
  at_end : r.0 ≡ p + suc digits
  reads : low_first base (suc digits) r.1 p ≡ u
  before : (i : ℕ) → i < p → r.1 i ≡ buf i

quotient_bound : (base u n : ℕ) → 2 ≤ base → u < 2 ^ suc n → u / base < 2 ^ n
quotient_bound base u n low h =
    let twice : 2 * (u / base) ≤ base * (u / base) = mul-le-mul_right (u / base) low in
    omega (arith, twice, div-add-mod u base, pow-suc 2 n)

more_rounds : (n q : ℕ) → q < 2 ^ n → (q == 0) ≡ false → 0 < n
more_rounds zero q h z = ground arith
more_rounds (suc n) q h z = omega arith

module _ (base : ℕ) (upcase : Bool) (low : 2 ≤ base) (high : base ≤ 16) where
  digit_read : (u : ℕ) → undigit (digit upcase (u % base)) ≡ u % base
  digit_read u = undigit-digit upcase (u % base) (omega (arith, mod-lt u {m = base} (omega arith)))

  write_digits-Written :
      (n u p : ℕ) (buf : ℕ → ℕ)
      → u < 2 ^ n
      → 0 < n
      → Written base u p buf (write_digits n base upcase u p buf)
  unfolding write_digits
  write_digits-Written zero u p buf h pos = ground arith
  write_digits-Written (suc n) u p buf h pos = elim (Bool-cases (u / base == 0)) [
    | inl z ↦
        let none_left : u / base ≡ 0 = ground arith in
        let all : base * (u / base) ≡ 0 = ap (λ (t : ℕ). base * t) none_left ∙ omega arith in
        rw z (record {
          digits = 0;
          at_end = omega arith;
          reads = rw (==-refl p) (rw (digit_read u) (omega (arith, div-add-mod u base, all)));
          before = λ i q. rw (==-ne i p (omega arith));
        })
    | inr z ↦
        let buf1 : ℕ → ℕ = update buf p (digit upcase (u % base)) in
        let fewer = quotient_bound base u n low h in
        let w =
          write_digits-Written n (u / base) (p + 1) buf1 fewer (more_rounds n (u / base) fewer z) in
        let written : buf1 p ≡ digit upcase (u % base) = rw (==-refl p) in
        let own : undigit ((write_digits n base upcase (u / base) (p + 1) buf1).1 p) ≡ u % base =
          ap undigit (w.before p (omega arith) ∙ written) ∙ digit_read u in
        rw z (record {
          digits = suc w.digits;
          at_end = w.at_end ∙ omega arith;
          reads = rw (own, w.reads) (omega (arith, div-add-mod u base));
          before = λ i q. w.before i (omega arith) ∙ rw (==-ne i p (omega arith)) refl;
        })
  ]

-- The loops after the digits.
fill-at :
    (n i c : ℕ) (buf : ℕ → ℕ) (j : ℕ)
    → fill n i c buf j ≡ (if leb i j && ltb j (i + n) then c else buf j)
unfolding fill
fill-at zero i c buf j = ground arith
fill-at (suc n) i c buf j = fill-at n (i + 1) c (update buf i c) j ∙ ground arith

same_end :
    (b e : ℕ) (buf : ℕ → ℕ) (j : ℕ)
    → e ≤ b
    → buf j ≡ (if leb b j && leb j e then buf (b + e - j) else buf j)
same_end b e buf j h = elim (Bool-cases (leb b j && leb j e)) [
  | inl t ↦ let mid : j ≡ b + e - j = ground arith in rw t (ap buf mid)
  | inr t ↦ rw t
]

exchanged :
    (b e : ℕ) (buf : ℕ → ℕ) (j : ℕ)
    → b < e
    → (if leb (b + 1) j && leb j (e - 1)
        then update (update buf b (buf e)) e (buf b) (b + 1 + (e - 1) - j)
        else update (update buf b (buf e)) e (buf b) j)
      ≡ (if leb b j && leb j e then buf (b + e - j) else buf j)
exchanged b e buf j h = elim (Bool-cases (leb (b + 1) j && leb j (e - 1))) [
  | inl t ↦
      let ne1 : b + 1 + (e - 1) - j ≢ e = (λ same. ground arith) in
      let ne2 : b + 1 + (e - 1) - j ≢ b = (λ same. ground arith) in
      let inside : (leb b j && leb j e) ≡ true = ground arith in
      let mid : b + 1 + (e - 1) - j ≡ b + e - j = omega arith in
      rw (t, inside) (rw (==-ne _ e ne1, ==-ne _ b ne2) (ap buf mid))
  | inr t ↦ rw t (elim (Bool-cases (j == e)) [
    | inl i ↦
        let at : b ≡ b + e - j = ground arith in
        let inside : (leb b j && leb j e) ≡ true = ground arith in rw (i, inside) (ap buf at)
    | inr i ↦ rw i (elim (Bool-cases (j == b)) [
      | inl m ↦
          let at : e ≡ b + e - j = ground arith in
          let inside : (leb b j && leb j e) ≡ true = ground arith in rw (m, inside) (ap buf at)
      | inr m ↦ let outside : (leb b j && leb j e) ≡ false = ground arith in rw (m, outside)
    ])
  ])
]

swap_ends-at :
    (n b e : ℕ) (buf : ℕ → ℕ) (j : ℕ)
    → e ≤ b + n
    → swap_ends n b e buf j ≡ (if leb b j && leb j e then buf (b + e - j) else buf j)
unfolding swap_ends
swap_ends-at zero b e buf j h = same_end b e buf j (omega arith)
swap_ends-at (suc n) b e buf j h = elim (Bool-cases (ltb b e)) [
  | inl t ↦ rw t (
      swap_ends-at n (b + 1) (e - 1) (update (update buf b (buf e)) e (buf b)) j (omega arith)
      ∙ exchanged b e buf j (ground arith))
  | inr t ↦ rw t (same_end b e buf j (ground arith))
]

-- Reading in writing order is reading the exchanged buffer from its last position on.
number-mirror :
    (base n p : ℕ) (f g : ℕ → ℕ) (q : ℕ)
    → ((i : ℕ) → i < n → g (p + i) ≡ f (q + (n - 1 - i)))
    → number base n g p ≡ low_first base n f q
number-mirror base zero p f g q h = refl
number-mirror base (suc n) p f g q h =
    let here : g (p + n) ≡ f q = h n (omega arith) ∙ ap f (omega arith) in
    let rest = number-mirror base n p f g (q + 1) (λ i k. h i (omega arith) ∙ ap f (omega arith)) in
    rw (here, rest) (omega (arith, mul_comm base (low_first base n f (q + 1))))

low_first_zero :
    (base m p : ℕ) (f : ℕ → ℕ)
    → ((i : ℕ) → i < m → undigit (f (p + i)) ≡ 0)
    → low_first base m f p ≡ 0
low_first_zero base zero p f h = refl
low_first_zero base (suc m) p f h =
    let here : undigit (f p) ≡ 0 =
      ap (λ (t : ℕ). undigit (f t)) (omega arith) ∙ h 0 (omega arith) in
    let rest =
      low_first_zero base m (p + 1) f
        (λ i k. ap (λ (t : ℕ). undigit (f t)) (omega arith) ∙ h (i + 1) (omega arith)) in
    rw (here, rest) (omega (arith, mul_comm base 0))

low_first_zeros :
    (base n m p : ℕ) (f : ℕ → ℕ)
    → ((i : ℕ) → i < m → undigit (f (p + n + i)) ≡ 0)
    → low_first base (n + m) f p ≡ low_first base n f p
low_first_zeros base zero m p f h =
    ap (λ (t : ℕ). low_first base t f p) {y = m} (omega arith)
    ∙ low_first_zero base m p f (λ i k. ap (λ (t : ℕ). undigit (f t)) (omega arith) ∙ h i k)
low_first_zeros base (suc n) m p f h =
    ap (λ (t : ℕ). low_first base t f p) {y = suc (n + m)} (omega arith)
    ∙ ap (λ (t : ℕ). undigit (f p) + base * t)
        (low_first_zeros base n m (p + 1) f
          (λ i k. ap (λ (t : ℕ). undigit (f t)) (omega arith) ∙ h i k))

-- The digits, with zeros behind them up to `total`, turned around at `start`.
module _ (base u d total : ℕ) (buf padded out : ℕ → ℕ) (start : ℕ)
    (reads : low_first base d buf 0 ≡ u) (fits : d ≤ total)
    (digits : (i : ℕ) → i < d → padded i ≡ buf i)
    (zeros : (i : ℕ) → d ≤ i → i < total → padded i ≡ 48)
    (turned : (i : ℕ) → i < total → out (start + i) ≡ padded (total - 1 - i)) where
  number-padded : number base total out start ≡ u
  number-padded =
      number-mirror base total start padded out 0 (λ i h. turned i h ∙ ap padded (omega arith))
      ∙ ap (λ (t : ℕ). low_first base t padded 0) (omega arith)
      ∙ low_first_zeros base d (total - d) 0 padded
          (λ i h. ap undigit (zeros (0 + d + i) (omega arith) (omega arith)))
      ∙ low_first_same base d padded buf 0 (λ i a b. digits i (omega arith))
      ∙ reads

-- What `print_num` hands to `out`, read back.
abbrev pub Reads : ℕ → ℕ → Bool → ℕ → ℕ × (ℕ → ℕ) → Type 0
Reads base u true width r = (width ≤ r.0) × (r.1 0 ≡ 45) × (number base (r.0 - 1) r.1 1 ≡ u)
Reads base u false width r = (width ≤ r.0) × (number base r.0 r.1 0 ≡ u)

fill-inside : (n i c : ℕ) (buf : ℕ → ℕ) (j : ℕ) → i ≤ j → j < i + n → fill n i c buf j ≡ c
fill-inside n i c buf j h k =
    let t : (leb i j && ltb j (i + n)) ≡ true = ground arith in fill-at n i c buf j ∙ rw t

fill-before : (n i c : ℕ) (buf : ℕ → ℕ) (j : ℕ) → j < i → fill n i c buf j ≡ buf j
fill-before n i c buf j h =
    let t : (leb i j && ltb j (i + n)) ≡ false = ground arith in fill-at n i c buf j ∙ rw t

swap_ends-inside :
    (n e : ℕ) (buf : ℕ → ℕ) (j : ℕ) → e ≤ n → j ≤ e → swap_ends n 0 e buf j ≡ buf (e - j)
swap_ends-inside n e buf j h k =
    let t : (leb 0 j && leb j e) ≡ true = ground arith in
    swap_ends-at n 0 e buf j (omega arith) ∙ rw t (ap buf (omega arith))

module _ (base u width p : ℕ) (buf : ℕ → ℕ) (w : Written base u 0 (λ _. 0) (p, buf)) where
  digits_read : low_first base p buf 0 ≡ u
  digits_read =
      ap (λ (t : ℕ). low_first base t buf 0) {y = suc w.digits} (w.at_end ∙ omega arith) ∙ w.reads

  some_digit : 0 < p
  some_digit = omega (arith, w.at_end)

  abbrev total_of : ℕ → ℕ
  total_of actual = if ltb width actual then actual else width

  plain : Reads base u false width (finish_num false width false 48 (p, buf))
  unfolding finish_num pad
  plain =
      let total = total_of p in
      let padded : ℕ → ℕ = fill (total - p) p 48 buf in
      let fits : p ≤ total = ground arith in
      (
        ground arith,
        number-padded base u p total buf padded (swap_ends total 0 (total - 1) padded) 0 digits_read
            fits (λ i h. fill-before (total - p) p 48 buf i h)
            (λ i h k. fill-inside (total - p) p 48 buf i h (omega arith))
            (λ i h.
              swap_ends-inside total (total - 1) padded (0 + i) (omega arith) (omega arith)
              ∙ ap padded (omega arith)),
      )

  beside : (i : ℕ) → i < p → update buf p 45 i ≡ buf i
  beside i h = rw (==-ne i p (omega arith))

  signed : Reads base u true width (finish_num true width false 48 (p, buf))
  unfolding finish_num pad
  signed =
      let total = total_of (p + 1) in
      let zeroed : ℕ → ℕ = fill (total - (p + 1)) (p + 1 - 1) 48 (update buf p 45) in
      let padded : ℕ → ℕ = update zeroed (total - 1) 45 in
      let fits : p + 1 ≤ total = ground arith in
      (
        ground arith,
        swap_ends-inside total (total - 1) padded 0 (omega arith) (omega arith)
            ∙ ap padded {y = total - 1} (omega arith)
            ∙ rw (==-refl (total - 1)),
        number-padded base u p (total - 1) buf padded (swap_ends total 0 (total - 1) padded) 1
            digits_read (omega arith)
            (λ i h. rw (==-ne i (total - 1) (λ same. omega (arith, same))) (
              fill-before (total - (p + 1)) (p + 1 - 1) 48 (update buf p 45) i (omega arith)
              ∙ beside i (omega arith)))
            (λ i h k. rw (==-ne i (total - 1) (λ same. omega (arith, same))) (
              fill-inside (total - (p + 1)) (p + 1 - 1) 48 (update buf p 45) i (omega arith)
                (omega arith)))
            (λ i h.
              swap_ends-inside total (total - 1) padded (1 + i) (omega arith) (omega arith)
              ∙ ap padded (omega arith)),
      )

finished :
    (base u width : ℕ) (neg_flag : Bool) (r : ℕ × (ℕ → ℕ))
    → Written base u 0 (λ _. 0) r
    → Reads base u neg_flag width (finish_num neg_flag width false 48 r)
finished base u width false (p, buf) w = plain base u width p buf w
finished base u width true (p, buf) w = signed base u width p buf w

-- `print_num` with zeros as padding on the left hands over at least `width` characters, and they
-- read as the number `u` in the base, behind a `-` for the negative flag.
pub print_num-Reads :
    (base u width : ℕ) (neg_flag upcase : Bool)
    → 2 ≤ base
    → base ≤ 16
    → u < 2 ^ 32
    → Reads base u neg_flag width (print_num u base neg_flag width false 48 upcase)
unfolding print_num
print_num-Reads base u width neg_flag upcase low high h =
    finished base u width neg_flag (write_digits 32 base upcase u 0 (λ _. 0))
      (write_digits-Written base upcase low high 32 u 0 (λ _. 0) h (omega arith))
