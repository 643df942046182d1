-- ===== src/Pipe/Fifo.antt =====
-- The pipe of user/lib/pipe.c is a queue of at most 32 bytes.
use buaa_os.Base.{
  ℕ, zero, suc, ◌+◌, ◌-◌, ◌%◌, ◌^◌, ◌≤◌, ◌<◌, ◌≡◌, refl, ap, ◌∙◌, Bool, true, false, ◌||◌, List, [],
  ◌∷◌, ◌++◌, ltb, ◌==◌, if◌then◌else◌, length, length-append, take, drop, arith, Bool-cases, inl,
  inr, ◌⊎◌, ==-refl, ==-ne, ==_iff,
}
use buaa_os.Vm.{update}
use buaa_os.Pipe.{
  Pipe, Transfer, returned, yields, stored, next_byte, advance, read_loop, pipe_read, put_byte,
  is_full, pipe_write,
}

-- The ring holds the bytes from the counter `r` on.
abbrev pub Bytes : (ℕ → ℕ) → ℕ → List ℕ → Type 0
Bytes buf r [] = Unit
Bytes buf r (b ∷ bs) = (buf (r % 32) ≡ b) × Bytes buf ((r + 1) % 2 ^ 32) bs

-- The pipe stands for the queue `c`.
pub record Holds (p : Pipe) (c : List ℕ) : Type 0 where
  pub low : p.rpos < 2 ^ 32
  pub at_end : p.wpos ≡ (p.rpos + length c) % 2 ^ 32
  pub fits : length c ≤ 32
  pub bytes : Bytes p.buf p.rpos c

advance-Holds :
    (p : Pipe) (b : ℕ) (bs : List ℕ)
    → Holds p (b ∷ bs)
    → ((p.rpos == p.wpos) ≡ false) × (next_byte p ≡ b) × Holds (advance p) bs
advance-Holds p b bs h = (
  ==-ne p.rpos p.wpos (λ same. omega (arith, same, h.low, h.at_end, h.fits)),
  h.bytes.0,
  record {
    low = omega arith;
    at_end = h.at_end ∙ omega arith;
    fits = omega (arith, h.fits);
    bytes = h.bytes.1;
  },
)

Bytes-put :
    (buf : ℕ → ℕ) (b r : ℕ) (c : List ℕ) (w : ℕ)
    → r < 2 ^ 32
    → w ≡ (r + length c) % 2 ^ 32
    → length c < 32
    → Bytes buf r c
    → Bytes (update buf (w % 32) b) r (c ++ b ∷ [])
Bytes-put buf b r [] w low e fits h =
    let here : r % 32 ≡ w % 32 = omega arith in (rw here (rw (==-refl (w % 32))), tt)
Bytes-put buf b r (x ∷ xs) w low e fits (hx, hxs) = (
  rw (==-ne (r % 32) (w % 32) (λ same. omega arith)) hx,
  Bytes-put buf b ((r + 1) % 2 ^ 32) xs w (omega arith) (e ∙ omega arith) (omega arith) hxs,
)

put_byte-Holds :
    (p : Pipe) (b : ℕ) (c : List ℕ) → Holds p c → length c < 32 → Holds (put_byte b p) (c ++ b ∷ [])
put_byte-Holds p b c h room = record {
  low = h.low;
  at_end = omega (arith, h.at_end, length-append c (b ∷ []));
  fits = omega (arith, length-append c (b ∷ []));
  bytes = Bytes-put p.buf b p.rpos c p.wpos h.low h.at_end room h.bytes;
}

is_full-Holds : (p : Pipe) (c : List ℕ) → Holds p c → is_full p ≡ (length c == 32)
is_full-Holds p c h =
    let room : (p.wpos + 2 ^ 32 - p.rpos) % 2 ^ 32 ≡ length c =
      omega (arith, h.low, h.at_end, h.fits) in
    ap (λ t. t == 32) room

-- The outcomes of a read of at most `n` bytes from the queue `c`.
abbrev pub ReadOutcome : ℕ → List ℕ → Bool → Transfer → Type 0
ReadOutcome n c closed (returned bs p') =
    (bs ≡ take n c) × Holds p' (drop n c) × (c ≡ [] → (n ≡ 0) ⊎ (closed ≡ true))
ReadOutcome n c closed (yields bs p') = (c ≡ []) × (closed ≡ false) × (bs ≡ []) × Holds p' []

-- The loop of `pipe_read`: with an empty queue it has read something, the pipe is closed, or it
-- waits.
abbrev LoopOutcome : ℕ → ℕ → List ℕ → Bool → Transfer → Type 0
LoopOutcome n i c closed (returned bs p') =
    (bs ≡ take n c) × Holds p' (drop n c) × (c ≡ [] → (n ≡ 0) ⊎ ((closed || ltb 0 i) ≡ true))
LoopOutcome n i c closed (yields bs p') =
    (i ≡ 0) × (c ≡ []) × (closed ≡ false) × (bs ≡ []) × Holds p' []

one_more :
    (n i : ℕ) (b : ℕ) (c : List ℕ) (closed : Bool) (t : Transfer)
    → LoopOutcome n (i + 1) c closed t
    → LoopOutcome (suc n) i (b ∷ c) closed (stored b t)
one_more n i b c closed (returned bs p') (e, h, k) = (ap (λ l. b ∷ l) e, h, λ q. ground arith)
one_more n i b c closed (yields bs p') (z, _, _, _, _) = ground arith

read_loop-LoopOutcome :
    (n i : ℕ) (c : List ℕ) (closed : Bool) (p : Pipe)
    → Holds p c
    → LoopOutcome n i c closed (read_loop n i closed p)
unfolding read_loop
read_loop-LoopOutcome zero i c closed p h = (refl, h, λ _. inl refl)
read_loop-LoopOutcome (suc n) i [] closed p h =
    let at_w : p.rpos ≡ p.wpos = omega (arith, h.low, h.at_end) in
    let empty : (p.rpos == p.wpos) ≡ true = (==_iff p.rpos p.wpos).1 at_w in
    rw empty (elim (Bool-cases (closed || ltb 0 i)) [
      | inl t ↦ rw t (refl, h, λ _. inr t)
      | inr t ↦ rw t (ground arith, refl, ground arith, refl, h)
    ])
read_loop-LoopOutcome (suc n) i (b ∷ bs) closed p h =
    let (more, byte, rest) = advance-Holds p b bs h in
    rw (more, byte)
      (one_more n i b bs closed (read_loop n (i + 1) closed (advance p))
        (read_loop-LoopOutcome n (i + 1) bs closed (advance p) rest))

-- `pipe_read` takes the first `n` bytes of the queue, or all where there are fewer, in order, and
-- leaves the others; on an empty queue it returns only where nothing is asked for or the pipe is
-- closed, and else yields with the queue as it was.
pub pipe_read-ReadOutcome :
    (n : ℕ) (c : List ℕ) (closed : Bool) (p : Pipe)
    → Holds p c
    → ReadOutcome n c closed (pipe_read n closed p)
unfolding pipe_read
pipe_read-ReadOutcome n c closed p h =
    started (read_loop n 0 closed p) (read_loop-LoopOutcome n 0 c closed p h)
  where
    started : (t : Transfer) → LoopOutcome n 0 c closed t → ReadOutcome n c closed t
    started (returned bs p') (e, k, f) = (e, k, λ q. why (f q))
      where
        why : ((n ≡ 0) ⊎ ((closed || false) ≡ true)) → (n ≡ 0) ⊎ (closed ≡ true)
        why (inl z) = inl z
        why (inr z) = inr (ground arith)
    started (yields bs p') (_, a, b, d, e) = (a, b, d, e)

-- The outcomes of a write of `bs` behind the queue `c`: `sent` is in the queue, `rest` is not.
abbrev pub WriteOutcome : List ℕ → List ℕ → Bool → Transfer → Type 0
WriteOutcome bs c closed (returned rest p') =
    (sent : List ℕ) × (sent ++ rest ≡ bs)
    × Holds p' (c ++ sent)
    × ((rest ≡ []) ⊎ (closed ≡ true) × (length (c ++ sent) ≡ 32))
WriteOutcome bs c closed (yields rest p') =
    (sent : List ℕ) × (sent ++ rest ≡ bs)
    × Holds p' (c ++ sent)
    × (closed ≡ false)
    × (length (c ++ sent) ≡ 32)

append_nil : (c : List ℕ) → c ++ [] ≡ c
append_nil [] = refl
append_nil (x ∷ xs) = ap (λ l. x ∷ l) (append_nil xs)

append_snoc : (c : List ℕ) (b : ℕ) (d : List ℕ) → (c ++ b ∷ []) ++ d ≡ c ++ b ∷ d
append_snoc [] b d = refl
append_snoc (x ∷ xs) b d = ap (λ l. x ∷ l) (append_snoc xs b d)

sent_one :
    (b : ℕ) (bs c : List ℕ) (closed : Bool) (t : Transfer)
    → WriteOutcome bs (c ++ b ∷ []) closed t
    → WriteOutcome (b ∷ bs) c closed t
sent_one b bs c closed (returned rest p') (sent, e, h, k) =
    (b ∷ sent, ap (λ l. b ∷ l) e, rw (← append_snoc c b sent) h, rw (← append_snoc c b sent) k)
sent_one b bs c closed (yields rest p') (sent, e, h, z, k) =
    (b ∷ sent, ap (λ l. b ∷ l) e, rw (← append_snoc c b sent) h, z, rw (← append_snoc c b sent) k)

-- `pipe_write` appends the bytes in order as far as the 32 places reach; it returns with bytes
-- left only where the queue is full and the pipe is closed, and yields only where it is full.
pub pipe_write-WriteOutcome :
    (bs c : List ℕ) (closed : Bool) (p : Pipe)
    → Holds p c
    → WriteOutcome bs c closed (pipe_write bs closed p)
unfolding pipe_write
pipe_write-WriteOutcome [] c closed p h = ([], refl, rw (append_nil c) h, inl refl)
pipe_write-WriteOutcome (b ∷ bs) c closed p h = elim (Bool-cases (length c == 32)) [
  | inl f ↦
      let full : is_full p ≡ true = is_full-Holds p c h ∙ f in
      let whole : length (c ++ []) ≡ 32 = ap length (append_nil c) ∙ ground arith in
      rw full (stuck closed whole)
  | inr f ↦
      let room : is_full p ≡ false = is_full-Holds p c h ∙ f in
      rw room (
        sent_one b bs c closed (pipe_write bs closed (put_byte b p)) (
          pipe_write-WriteOutcome bs (c ++ b ∷ []) closed (put_byte b p)
            (put_byte-Holds p b c h (ground (arith, h.fits)))))
]
  where
    stuck :
        (d : Bool)
        → length (c ++ []) ≡ 32
        → WriteOutcome (b ∷ bs) c d (if d then returned (b ∷ bs) p else yields (b ∷ bs) p)
    stuck true whole = ([], refl, rw (append_nil c) h, inr (refl, whole))
    stuck false whole = ([], refl, rw (append_nil c) h, refl, whole)
