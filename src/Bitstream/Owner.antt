-- ===== src/Bitstream/Owner.antt =====
-- Who owns which buffer: the constructors, the assignments and the destructor of
-- src/logic/bitstream.cpp on a heap. An object is a variable of the program, named by a number.
pub mod Kept
pub mod Ended
pub mod Moved
pub mod Shown
pub mod Copied
pub mod Replaced
pub mod Assigned
pub mod Contents
pub mod Reallocated
pub mod Lifetimes
use logic.Base.{ℕ, suc, Option, none, some, List, [], if◌then◌else◌, ◌==◌, ◌>>=◌, replicate, min}
use logic.Storage.{size, copy_n}

-- The members of an object; `none` is the null pointer.
pub record Object : Type 0 where
  pub m_bits : Option ℕ
  pub m_size : ℕ

-- The live objects, the buffers that were allocated and not deleted, and an address from which on none
-- was used.
pub record Memory : Type 0 where
  pub object : ℕ → Option Object
  pub buffer : ℕ → Option (List ℕ)
  pub fresh : ℕ

abbrev pub put {ℓ} : {A : Type ℓ} → ℕ → A → (ℕ → A) → ℕ → A
put k v f j = if j == k then v else f j

-- `new std::uint8_t[n]`: the memory after it, where the new buffer has the address `fresh` of the old
-- one.
unfoldable pub allocate : List ℕ → Memory → Memory
allocate bits m = record m { buffer = put m.fresh (some bits) m.buffer; fresh = suc m.fresh }

-- `delete []`: nothing for the null pointer, and undefined for a buffer that is not there.
unfoldable pub delete : Option ℕ → Memory → Option Memory
delete none m = some m
delete (some p) m = m.buffer p >>= λ bits. some (record m { buffer = put p none m.buffer })

-- The bytes behind a pointer.
unfoldable pub bytes_at : Option ℕ → Memory → Option (List ℕ)
bytes_at none m = some []
bytes_at (some p) m = m.buffer p

unfoldable pub set_object : ℕ → Option Object → Memory → Memory
set_object this o m = record m { object = put this o m.object }

-- `bitstream()` and `bitstream(n)`
unfoldable pub construct_empty : ℕ → Memory → Memory
construct_empty this m = set_object this (some (record { m_bits = none; m_size = 0 })) m

unfoldable pub construct : ℕ → ℕ → Memory → Memory
construct this n m =
    set_object this (some (record { m_bits = some m.fresh; m_size = n }))
      (allocate (replicate (size n) 0) m)

-- `::copy_n(other.m_bits, ::size(m_size), m_bits)` into the new buffer
unfoldable pub copy_in : ℕ → Object → Memory → Option Memory
copy_in bits o m = do
  source ← bytes_at o.m_bits m
  target ← m.buffer bits
  copied ← copy_n source (size o.m_size) target
  some (record m { buffer = put bits (some copied) m.buffer })

-- `bitstream(bitstream&&)`
unfoldable pub move_construct : ℕ → ℕ → Memory → Option Memory
move_construct this other m = do
  o ← m.object other
  some (set_object other (some (record { m_bits = none; m_size = 0 })) (set_object this (some o) m))

-- `bitstream(const bitstream&)`; the new buffer holds any bytes before the copy.
unfoldable pub copy_construct : ℕ → ℕ → ℕ → Memory → Option Memory
copy_construct garbage this other m = do
  o ← m.object other
  copied ← copy_in m.fresh o (allocate (replicate (size o.m_size) garbage) m)
  some (set_object this (some (record { m_bits = some m.fresh; m_size = o.m_size })) copied)

-- `operator=(bitstream&&)`
unfoldable pub move_assign : ℕ → ℕ → Memory → Option Memory
move_assign this other m = if this == other then some m else do
  t ← m.object this
  o ← m.object other
  deleted ← delete t.m_bits m
  some (
      set_object other (some (record { m_bits = none; m_size = 0 }))
        (set_object this (some o) deleted))

-- `operator=(const bitstream&)`
unfoldable pub copy_assign : ℕ → ℕ → ℕ → Memory → Option Memory
copy_assign garbage this other m = if this == other then some m else do
  t ← m.object this
  o ← m.object other
  deleted ← delete t.m_bits (allocate (replicate (size o.m_size) garbage) m)
  copied ← copy_in m.fresh o deleted
  some (set_object this (some (record { m_bits = some m.fresh; m_size = o.m_size })) copied)

-- `resize(val)`
unfoldable pub reallocate : ℕ → ℕ → Memory → Option Memory
reallocate val this m = do
  t ← m.object this
  if t.m_size == val then some m else do
    let bits = m.fresh
    let allocated = allocate (replicate (size val) 0) m
    source ← bytes_at t.m_bits allocated
    target ← allocated.buffer bits
    copied ← copy_n source (size (min t.m_size val)) target
    deleted ←
        delete t.m_bits (record allocated { buffer = put bits (some copied) allocated.buffer })
    some (set_object this (some (record { m_bits = some bits; m_size = val })) deleted)

-- `~bitstream()`
unfoldable pub destroy : ℕ → Memory → Option Memory
destroy this m = do
  t ← m.object this
  deleted ← delete t.m_bits m
  some (set_object this none deleted)

-- The calls that start, change and end objects.
pub data Call : Type 0 where
  empty_of : ℕ → Call
  sized_of : ℕ → ℕ → Call
  copied_of : ℕ → ℕ → Call
  moved_of : ℕ → ℕ → Call
  copy_to : ℕ → ℕ → Call
  move_to : ℕ → ℕ → Call
  resize_to : ℕ → ℕ → Call
  end_of : ℕ → Call

unfoldable pub call : ℕ → Call → Memory → Option Memory
call garbage (empty_of this) m = some (construct_empty this m)
call garbage (sized_of this n) m = some (construct this n m)
call garbage (copied_of this other) m = copy_construct garbage this other m
call garbage (moved_of this other) m = move_construct this other m
call garbage (copy_to this other) m = copy_assign garbage this other m
call garbage (move_to this other) m = move_assign this other m
call garbage (resize_to this val) m = reallocate val this m
call garbage (end_of this) m = destroy this m
