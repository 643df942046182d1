-- ===== src/CString.antt =====
-- The functions of lib/string.c on memory: bytes by address. A region that is written does not reach
-- the last four addresses of the 32-bit space, where the pointers of the loops would wrap around.
pub mod Copy
pub mod Strings
use buaa_os.Base.{
  ℕ, zero, suc, ◌+◌, ◌-◌, ◌*◌, ◌/◌, ◌%◌, ◌^◌, bit_or, Bool, true, false, not, ◌&&◌, Option, none,
  some, ltb, leb, ◌==◌, if◌then◌else◌,
}
use buaa_os.Vm.{update}

-- `k` bytes are read, and then written: a byte, or a machine word.
abbrev pub move : ℕ → ℕ → ℕ → (ℕ → ℕ) → ℕ → ℕ
move k dst src m p = if leb dst p && ltb p (dst + k) then m (src + (p - dst)) else m p

-- The loops over the `n` bytes that are left.
unfoldable pub copy_bytes : ℕ → ℕ → ℕ → (ℕ → ℕ) → ℕ → ℕ
copy_bytes zero dst src m = m
copy_bytes (suc n) dst src m = copy_bytes n (dst + 1) (src + 1) (move 1 dst src m)

-- Machine words, in at most `k` rounds, and then the remaining bytes.
unfoldable pub copy_words : ℕ → ℕ → ℕ → ℕ → (ℕ → ℕ) → ℕ → ℕ
unfolding copy_bytes
copy_words zero n dst src m = copy_bytes n dst src m
copy_words (suc k) n dst src m =
    let rest = copy_words k (n - 4) (dst + 4) (src + 4) (move 4 dst src m) in
    if leb 4 n then rest else copy_bytes n dst src m

-- Bytes up to a word boundary, and then words.
unfoldable pub copy_aligned : ℕ → ℕ → ℕ → (ℕ → ℕ) → ℕ → ℕ
unfolding copy_words
copy_aligned zero dst src m = copy_words zero zero dst src m
copy_aligned (suc n) dst src m =
    let rest = copy_aligned n (dst + 1) (src + 1) (move 1 dst src m) in
    if dst % 4 == 0 then copy_words (suc n) (suc n) dst src m else rest

unfoldable pub memcpy : ℕ → ℕ → ℕ → (ℕ → ℕ) → ℕ → ℕ
unfolding copy_bytes copy_aligned
memcpy dst src n m = if src % 4 == dst % 4 then copy_aligned n dst src m else copy_bytes n dst src m

-- The `k` lowest bytes of `v`, the lowest first.
abbrev pub store_bytes : ℕ → ℕ → ℕ → (ℕ → ℕ) → ℕ → ℕ
store_bytes k dst v m p = if leb dst p && ltb p (dst + k) then v / 256 ^ (p - dst) % 256 else m p

-- `byte | byte << 8 | byte << 16 | byte << 24`.
abbrev pub word_of : ℕ → ℕ
word_of b = bit_or (bit_or (bit_or b (b * 2 ^ 8)) (b * 2 ^ 16)) (b * 2 ^ 24)

unfoldable pub fill_bytes : ℕ → ℕ → ℕ → (ℕ → ℕ) → ℕ → ℕ
fill_bytes zero dst b m = m
fill_bytes (suc n) dst b m = fill_bytes n (dst + 1) b (store_bytes 1 dst b m)

unfoldable pub fill_words : ℕ → ℕ → ℕ → ℕ → (ℕ → ℕ) → ℕ → ℕ
unfolding fill_bytes
fill_words zero n dst b m = fill_bytes n dst b m
fill_words (suc k) n dst b m =
    let rest = fill_words k (n - 4) (dst + 4) b (store_bytes 4 dst (word_of b) m) in
    if leb 4 n then rest else fill_bytes n dst b m

unfoldable pub fill_aligned : ℕ → ℕ → ℕ → (ℕ → ℕ) → ℕ → ℕ
unfolding fill_words
fill_aligned zero dst b m = fill_words zero zero dst b m
fill_aligned (suc n) dst b m =
    let rest = fill_aligned n (dst + 1) b (store_bytes 1 dst b m) in
    if dst % 4 == 0 then fill_words (suc n) (suc n) dst b m else rest

-- The byte is `c & 0xff`.
unfoldable pub memset : ℕ → ℕ → ℕ → (ℕ → ℕ) → ℕ → ℕ
unfolding fill_aligned
memset dst c n m = fill_aligned n dst (c % 256) m

-- The loops over a string in at most `k` rounds; `none` where they do not end in them.
unfoldable pub strlen_from : ℕ → (ℕ → ℕ) → ℕ → ℕ → Option ℕ
strlen_from zero m s n = none
strlen_from (suc k) m s n =
    let rest = strlen_from k m (s + 1) (n + 1) in if m s == 0 then some n else rest

abbrev pub strlen : ℕ → (ℕ → ℕ) → ℕ → Option ℕ
strlen k m s = strlen_from k m s 0

unfoldable pub strcpy : ℕ → ℕ → ℕ → (ℕ → ℕ) → Option (ℕ → ℕ)
strcpy zero dst src m = none
strcpy (suc k) dst src m =
    let m' : ℕ → ℕ = update m dst (m src) in
    let rest = strcpy k (dst + 1) (src + 1) m' in if m src == 0 then some m' else rest
