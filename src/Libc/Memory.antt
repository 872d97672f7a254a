-- ===== src/Libc/Memory.antt =====
-- libpolyhedron/string: the functions that write memory. Memory is a byte for each address; an object
-- does not wrap round the end of the address space.
pub mod Copy
pub mod Text
mod Examples
use hexahedron.Base.{
  ℕ, zero, suc, ◌+◌, ◌-◌, ◌*◌, ◌/◌, ◌%◌, Bool, true, false, ◌&&◌, Option, none, some, ◌==◌, ltb,
  leb, if◌then◌else◌,
}

abbrev pub Memory : Type 0
Memory = ℕ → ℕ

abbrev pub store : Memory → ℕ → ℕ → Memory
store m p v a = if a == p then v else m a

-- A word of `k` bytes is read at `s` and then written at `d`.
abbrev pub copy_word : ℕ → ℕ → ℕ → Memory → Memory
copy_word k d s m a = if leb d a && ltb a (d + k) then m (s + (a - d)) else m a

-- A loop of `memcpy`, with the words left.
unfoldable pub copy_words : ℕ → ℕ → ℕ → ℕ → Memory → Memory
copy_words k zero d s m = m
copy_words k (suc r) d s m = copy_words k r (d + k) (s + k) (copy_word k d s m)

-- Words of 8 bytes, then words of 4, then single bytes.
unfoldable pub memcpy : ℕ → ℕ → ℕ → Memory → Memory
unfolding copy_words
memcpy dest src n m =
    let d_32 = dest + n / 8 * 8 in
    let s_32 = src + n / 8 * 8 in
    let d = d_32 + n % 8 / 4 * 4 in
    let s = s_32 + n % 8 / 4 * 4 in
    copy_words 1 (n % 4) d s (copy_words 4 (n % 8 / 4) d_32 s_32 (copy_words 8 (n / 8) dest src m))

-- The two loops of `memmove`, with the rounds left; the second one counts down.
unfoldable pub move_forward : ℕ → ℕ → ℕ → ℕ → Memory → Memory
move_forward zero i d s m = m
move_forward (suc r) i d s m = move_forward r (i + 1) d s (store m (d + i) (m (s + i)))

unfoldable pub move_backward : ℕ → ℕ → ℕ → Memory → Memory
move_backward zero d s m = m
move_backward (suc i) d s m = move_backward i d s (store m (d + i) (m (s + i)))

unfoldable pub memmove : ℕ → ℕ → ℕ → Memory → Memory
unfolding move_forward move_backward
memmove d s size m = if ltb d s then move_forward size 0 d s m else move_backward size d s m

-- The loop of `memset`, with the rounds left; the value is converted to a `char`.
unfoldable pub set_bytes : ℕ → ℕ → ℕ → ℕ → Memory → Memory
set_bytes zero i d value m = m
set_bytes (suc r) i d value m = set_bytes r (i + 1) d value (store m (d + i) (value % 256))

unfoldable pub memset : ℕ → ℕ → ℕ → Memory → Memory
unfolding set_bytes
memset d value size m = set_bytes size 0 d value m

-- The loop of `strncpy`, with what is left of `length`.
unfoldable pub strncpy : ℕ → ℕ → ℕ → Memory → Memory
strncpy d s zero m = m
strncpy d s (suc length) m = strncpy (d + 1) (s + 1) length (store m d (m s))

-- The loops that end at a NUL byte run on fuel; `none` means that it ran out.
unfoldable pub strcpy : ℕ → ℕ → ℕ → Memory → Option Memory
strcpy zero d s m = none
strcpy (suc fuel) d s m =
    let next = strcpy fuel (d + 1) (s + 1) (store m d (m s)) in
    if m s == 0 then some (store m d (m s)) else next

unfoldable pub find_end : ℕ → ℕ → Memory → Option ℕ
find_end zero p m = none
find_end (suc fuel) p m = let next = find_end fuel (p + 1) m in if m p == 0 then some p else next

unfoldable pub append_loop : ℕ → ℕ → ℕ → Memory → Option Memory
append_loop zero end src m = none
append_loop (suc fuel) end src m =
    let next = append_loop fuel (end + 1) (src + 1) (store m end (m src)) in
    if m src == 0 then some (store m end 0) else next

abbrev pub with_end : Option ℕ → (ℕ → Option Memory) → Option Memory
with_end none f = none
with_end (some p) f = f p

unfoldable pub strcat : ℕ → ℕ → ℕ → Memory → Option Memory
unfolding find_end append_loop
strcat fuel dest src m = with_end (find_end fuel dest m) (λ end. append_loop fuel end src m)

-- The loop of `strncat`, with the bytes that may still be appended.
unfoldable pub append_some : ℕ → ℕ → ℕ → Memory → Memory
append_some zero end src m = store m end 0
append_some (suc left) end src m =
    let next = append_some left (end + 1) (src + 1) (store m end (m src)) in
    if m src == 0 then store m end 0 else next

unfoldable pub strncat : ℕ → ℕ → ℕ → ℕ → Memory → Option Memory
unfolding find_end append_some
strncat fuel dest src n m = with_end (find_end fuel dest m) (λ end. some (append_some n end src m))
