-- ===== src/Print.antt =====
-- lib/print.c, on which `printk` and `printf` stand. A buffer is a function from positions to
-- characters. What `out` receives in one call of `print_num` is a length and a buffer; the calls
-- of the other functions are written as the characters that they hand over, in order.
pub mod Number
pub mod Format
use buaa_os.Base.{
  ℕ, zero, suc, ◌+◌, ◌-◌, ◌*◌, ◌/◌, ◌%◌, ◌^◌, Bool, true, false, not, ◌&&◌, ◌||◌, Option, none,
  some, List, [], ◌∷◌, ◌++◌, ltb, leb, ◌==◌, if◌then◌else◌, length, replicate,
}
use buaa_os.Vm.{update}

abbrev pub digit : Bool → ℕ → ℕ
digit upcase t = if leb t 9 then 48 + t else if upcase then 65 + t - 10 else 97 + t - 10

-- The first loop of `print_num`, with `n` rounds left: the digits of `u` from position `p` on, the
-- lowest first, and the position after them. The 32 bits of `u` need 32 rounds at most.
unfoldable pub write_digits : ℕ → ℕ → Bool → ℕ → ℕ → (ℕ → ℕ) → ℕ × (ℕ → ℕ)
write_digits zero base upcase u p buf = (p, buf)
write_digits (suc n) base upcase u p buf =
    let buf1 = update buf p (digit upcase (u % base)) in
    let rest = write_digits n base upcase (u / base) (p + 1) buf1 in
    if u / base == 0 then (p + 1, buf1) else rest

-- `for (; i < end; i++) buf[i] = c`, with `n` rounds left.
unfoldable pub fill : ℕ → ℕ → ℕ → (ℕ → ℕ) → ℕ → ℕ
fill zero i c buf = buf
fill (suc n) i c buf = fill n (i + 1) c (update buf i c)

-- The exchange loop, with `n` rounds left.
unfoldable pub swap_ends : ℕ → ℕ → ℕ → (ℕ → ℕ) → ℕ → ℕ
swap_ends zero begin end buf = buf
swap_ends (suc n) begin end buf =
    let rest =
      swap_ends n (begin + 1) (end - 1) (update (update buf begin (buf end)) end (buf begin)) in
    if ltb begin end then rest else buf

-- The characters after the padding, before the exchange. `actual` is the length without padding.
unfoldable pub pad : Bool → Bool → ℕ → ℕ → ℕ → (ℕ → ℕ) → ℕ → ℕ
unfolding fill
pad neg_flag ladjust padc actual total buf =
    if neg_flag && (not ladjust && (padc == 48))
    then update (fill (total - actual) (actual - 1) padc buf) (total - 1) 45
    else fill (total - actual) actual padc buf

-- From the `-` sign on: `p` is the length of the digits in `buf`.
unfoldable pub finish_num : Bool → ℕ → Bool → ℕ → ℕ × (ℕ → ℕ) → ℕ × (ℕ → ℕ)
unfolding pad swap_ends
finish_num neg_flag width ladjust padc (p, buf) =
    let actual = if neg_flag then p + 1 else p in
    let buf1 : ℕ → ℕ = if neg_flag then update buf p 45 else buf in
    let total = if ltb width actual then actual else width in
    let padc1 = if ladjust then 32 else padc in
    let end = if ladjust then actual - 1 else total - 1 in
    (total, swap_ends total 0 end (pad neg_flag ladjust padc1 actual total buf1))

unfoldable pub print_num : ℕ → ℕ → Bool → ℕ → Bool → ℕ → Bool → ℕ × (ℕ → ℕ)
unfolding write_digits finish_num
print_num u base neg_flag width ladjust padc upcase =
    finish_num neg_flag width ladjust padc (write_digits 32 base upcase u 0 (λ _. 0))

abbrev pub print_char : ℕ → ℕ → Bool → List ℕ
print_char c width ladjust =
    let width1 = if ltb width 1 then 1 else width in
    if ladjust then c ∷ replicate (width1 - 1) 32 else replicate (width1 - 1) 32 ++ c ∷ []

abbrev pub print_str : List ℕ → ℕ → Bool → List ℕ
print_str s width ladjust =
    let width1 = if ltb width (length s) then length s else width in
    if ladjust then s ++ replicate (width1 - length s) 32 else replicate (width1 - length s) 32 ++ s

-- `print_num`, as the characters that `out` receives.
unfoldable pub collect : ℕ → ℕ → (ℕ → ℕ) → List ℕ
collect zero i buf = []
collect (suc n) i buf = buf i ∷ collect n (i + 1) buf

abbrev pub out_num : ℕ × (ℕ → ℕ) → List ℕ
out_num (n, buf) = collect n 0 buf

-- The text before the next `%`, and what follows it.
abbrev pub text : List ℕ → List ℕ
text [] = []
text (c ∷ cs) = if c == 37 then [] else c ∷ text cs

abbrev pub after_text : List ℕ → List ℕ
after_text [] = []
after_text (c ∷ cs) = if c == 37 then c ∷ cs else after_text cs

-- `if (*fmt == c) fmt++`, with whether it was so.
abbrev pub skip : ℕ → List ℕ → Bool × List ℕ
skip c [] = (false, [])
skip c (d ∷ ds) = if d == c then (true, ds) else (false, d ∷ ds)

-- `width` is an `int`: its arithmetic is that of 32 bits, and a number from 2^31 on is negative.
abbrev pub read_width : List ℕ → ℕ → ℕ × List ℕ
read_width [] width = (width, [])
read_width (c ∷ cs) width =
    if leb 48 c && leb c 57 then read_width cs ((width * 10 + c - 48) % 2 ^ 32) else (width, c ∷ cs)

-- A negative width is less than the length of any text, and acts as 0.
abbrev pub int_width : ℕ → ℕ
int_width width = if leb (2 ^ 31) width then 0 else width

-- A `%d` prints the magnitude of the 32-bit word and a sign.
abbrev pub print_signed : ℕ → ℕ → Bool → ℕ → List ℕ
print_signed num width ladjust padc =
    if leb (2 ^ 31) num
    then out_num (print_num (2 ^ 32 - num) 10 true width ladjust padc false)
    else out_num (print_num num 10 false width ladjust padc false)

-- What one round of the loop does: it stops, or goes on behind a conversion.
pub data Round : Type 0 where
  stop : List ℕ → Round
  go : List ℕ → List ℕ → ℕ → Round

-- `args` is the list of variable arguments, 32-bit words, `long` like `int`; `ap` is the position
-- in it. `string_at` is the
-- string behind a `char *`, which is taken to end.
module _ (args : ℕ → ℕ) (string_at : ℕ → List ℕ) where
  -- The `switch` on the conversion character `c`: the output, and the next argument.
  unfoldable pub convert : ℕ → ℕ → Bool → ℕ → ℕ → List ℕ × ℕ
  unfolding print_num collect
  convert c width ladjust padc ap =
      let num = args ap in
      let unsigned : ℕ → Bool → List ℕ × ℕ =
        λ base upcase. (out_num (print_num num base false width ladjust padc upcase), ap + 1) in
      if c == 98
      then unsigned 2 false
      else if (c == 100) || (c == 68)
      then (print_signed num width ladjust padc, ap + 1)
      else if (c == 111) || (c == 79)
      then unsigned 8 false
      else if (c == 117) || (c == 85)
      then unsigned 10 false
      else if c == 120
      then unsigned 16 false
      else if c == 88
      then unsigned 16 true
      else if c == 99
      then (print_char (num % 2 ^ 8) width ladjust, ap + 1)
      else if c == 115
      then (print_str (string_at num) width ladjust, ap + 1)
      else (c ∷ [], ap)

  abbrev pub converted : List ℕ → List ℕ → ℕ → Bool → ℕ → ℕ → Round
  converted before [] width ladjust padc ap = go before [] ap
  converted before (c ∷ cs) width ladjust padc ap =
      let r = convert c width ladjust padc ap in go (before ++ r.0) cs r.1

  -- The flags, the width and the `l`, from behind the `%`.
  abbrev pub specified : List ℕ → List ℕ → ℕ → Round
  specified before fmt ap =
      let l = skip 45 fmt in
      let z = skip 48 l.1 in
      let w = read_width z.1 0 in
      let long_flag = skip 108 w.1 in
      converted before long_flag.1 (int_width w.0) l.0 (if z.0 then 48 else 32) ap

  abbrev pub round_from : List ℕ → List ℕ → ℕ → Round
  round_from before [] ap = stop before
  round_from before (c ∷ fmt) ap = specified before fmt ap

  unfoldable pub round : List ℕ → ℕ → Round
  unfolding convert
  round fmt ap = round_from (text fmt) (after_text fmt) ap

  abbrev pub and_rest : List ℕ → Option (List ℕ) → Option (List ℕ)
  and_rest before none = none
  and_rest before (some rest) = some (before ++ rest)

  abbrev pub rounds : (List ℕ → ℕ → Option (List ℕ)) → Round → Option (List ℕ)
  rounds next (stop before) = some before
  rounds next (go before fmt ap) = and_rest before (next fmt ap)

  -- The loop, with `n` rounds left.
  unfoldable pub vprintfmt : ℕ → List ℕ → ℕ → Option (List ℕ)
  unfolding round
  vprintfmt zero fmt ap = none
  vprintfmt (suc n) fmt ap = rounds (vprintfmt n) (round fmt ap)
