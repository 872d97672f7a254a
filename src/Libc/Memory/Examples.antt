-- ===== src/Libc/Memory/Examples.antt =====
-- The functions that write memory at concrete addresses.
use hexahedron.Base.{◌≡◌, refl, ◌&&◌, ltb, leb, if◌then◌else◌}
use hexahedron.Libc.Memory.{Memory, memmove}
use hexahedron.Libc.Memory.Copy.{copied, memmove-copied}

-- "ddd" at 100, "xx" at 200, and NUL elsewhere
abbrev memory : Memory
memory a = if leb 100 a && ltb a 103 then b'd' else if leb 200 a && ltb a 202 then b'x' else 0

memmove_run : memmove 101 100 3 memory 103 ≡ b'd'
unfolding memmove
memmove_run = refl

memmove-copied_example : memmove 101 100 3 memory 103 ≡ copied 101 100 3 memory 103
memmove-copied_example = memmove-copied 101 100 3 memory 103
