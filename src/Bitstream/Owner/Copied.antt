-- ===== src/Bitstream/Owner/Copied.antt =====
-- The copy of an object into a new buffer, and an object that takes a free slot.
use logic.Base.{
  ◌+◌, ◌<◌, ◌^◌, ℕ, zero, suc, ◌≡◌, ◌≢◌, refl, sym, ap, subst, ◌∙◌, Option, none, some, List, [],
  ◌∷◌, arith, length, length-replicate, replicate,
}
use mathlib.Core.Option
use logic.Storage.{size, copy_n}
use logic.Bitstream.Owner.{
  Object, Memory, put, allocate, bytes_at, set_object, copy_in, copy_construct, move_construct,
}
use logic.Bitstream.Owner.Kept.{IsOwned, null_object, put-same, not_free, new-IsOwned}
use logic.Bitstream.Owner.Moved.{put-put, moved-IsOwned}
use logic.Bitstream.Owner.Shown.{
  Shows, Keeps, bytes_at-same, bytes_at-allocate, set_object-Keeps, allocate-Keeps, length-Shows,
}

pub copy_all :
    (src : List ℕ) (n : ℕ) (dst : List ℕ)
    → length src ≡ n
    → length dst ≡ n
    → copy_n src n dst ≡ some src
unfolding copy_n
copy_all [] zero [] h k = refl
copy_all [] zero (d ∷ dst) h k = absurd (omega (arith, k))
copy_all [] (suc n) dst h k = absurd (omega (arith, h))
copy_all (s ∷ src) zero dst h k = absurd (omega (arith, h))
copy_all (s ∷ src) (suc n) [] h k = absurd (omega (arith, k))
copy_all (s ∷ src) (suc n) (d ∷ dst) h k =
    ap (Option.map (λ rest. s ∷ rest)) (copy_all src n dst (omega (arith, h)) (omega (arith, k)))

pub copy_in_lem :
    (m : Memory) (new bits : List ℕ) (o : Object)
    → bytes_at o.m_bits (allocate new m) ≡ some bits
    → length bits ≡ size o.m_size
    → length new ≡ size o.m_size
    → copy_in m.fresh o (allocate new m) ≡ some (allocate bits m)
unfolding copy_in allocate
copy_in_lem m new bits o source long room =
    rw
      (
        source,
        put-same m.fresh (some new) m.buffer,
        copy_all bits (size o.m_size) new long room,
        put-put m.fresh (some bits) (some new) m.buffer,
      )
      refl

abbrev pub with_new : ℕ → ℕ → List ℕ → Memory → Memory
with_new this n bits m =
    set_object this (some (record { m_bits = some m.fresh; m_size = n })) (allocate bits m)

pub new-Shows :
    (m : Memory) (this n : ℕ) (bits : List ℕ) → Shows (with_new this n bits m) this n bits
unfolding set_object allocate bytes_at
new-Shows m this n bits = record {
  o = record { m_bits = some m.fresh; m_size = n };
  live = put-same this (some (record { m_bits = some m.fresh; m_size = n })) m.object;
  sized = refl;
  shown = put-same m.fresh (some bits) m.buffer;
}

pub new-Keeps :
    {m : Memory} (this n : ℕ) (bits : List ℕ) → IsOwned m → Keeps this m (with_new this n bits m)
new-Keeps {m} this n bits w i k old ne s =
    set_object-Keeps this (some (record { m_bits = some m.fresh; m_size = n })) (allocate bits m) i
      k old ne (allocate-Keeps bits i k old w s)

-- What a step has to do that gives `this` a value: every object owns its buffer, `this` has the value,
-- and every other object keeps its own.
abbrev pub Gives : Option Memory → Memory → ℕ → ℕ → List ℕ → Type 0
Gives result m this n bits =
    (out : Memory) × (result ≡ some out) × IsOwned out × Shows out this n bits × Keeps this m out

pub copy_construct-Gives :
    {m : Memory} (garbage this other n : ℕ) (bits : List ℕ)
    → m.object this ≡ none
    → IsOwned m
    → Shows m other n bits
    → Gives (copy_construct garbage this other m) m this n bits
unfolding copy_construct
copy_construct-Gives {m} garbage this other n bits slot w s = (
  with_new this n bits m,
  rw (s.live, copied, s.sized) refl,
  new-IsOwned this n bits slot (length-Shows other n bits w s) small w,
  new-Shows m this n bits,
  new-Keeps this n bits w,
)
  where
    small : n + 7 < 2 ^ 64
    small = subst (λ k. k + 7 < 2 ^ 64) s.sized (w.fits other s.o s.live)

    copied :
        copy_in m.fresh s.o (allocate (replicate (size s.o.m_size) garbage) m)
        ≡ some (allocate bits m)
    copied =
        copy_in_lem m (replicate (size s.o.m_size) garbage) bits s.o
          (bytes_at-allocate s.o s.o.m_bits (replicate (size s.o.m_size) garbage) bits refl w
            s.shown)
          (length-Shows other n bits w s ∙ ap size (sym s.sized))
          (length-replicate (size s.o.m_size) garbage)

-- What a move has to do: `this` has the value, `other` is empty, and no other object changes.
abbrev pub Hands : Option Memory → Memory → ℕ → ℕ → ℕ → List ℕ → Type 0
Hands result m this other n bits =
    (out : Memory) × (result ≡ some out)
    × IsOwned out
    × Shows out this n bits
    × Shows out other 0 []
    × ((i k : ℕ) (old : List ℕ) → i ≢ this → i ≢ other → Shows m i k old → Shows out i k old)

pub set_object-Shows :
    (m : Memory) (i : ℕ) (o : Object) (bits : List ℕ)
    → bytes_at o.m_bits m ≡ some bits
    → Shows (set_object i (some o) m) i o.m_size bits
unfolding set_object
set_object-Shows m i o bits e = record {
  o = o;
  live = put-same i (some o) m.object;
  sized = refl;
  shown = bytes_at-same o.m_bits (record m { object = put i (some o) m.object }) m refl ∙ e;
}

pub move_construct-Hands :
    {m : Memory} (this other n : ℕ) (bits : List ℕ)
    → m.object this ≡ none
    → IsOwned m
    → Shows m other n bits
    → Hands (move_construct this other m) m this other n bits
unfolding move_construct
move_construct-Hands {m} this other n bits slot w s = (
  set_object other (some null_object) (set_object this (some s.o) m),
  rw s.live refl,
  moved-IsOwned this other s.o slot s.live w,
  set_object-Keeps other (some null_object) (set_object this (some s.o) m) this n bits differ (
      subst (λ k. Shows (set_object this (some s.o) m) this k bits) s.sized
        (set_object-Shows m this s.o bits s.shown)),
  set_object-Shows (set_object this (some s.o) m) other null_object [] (unfold bytes_at in refl),
  λ i k old first second shows.
      set_object-Keeps other (some null_object) (set_object this (some s.o) m) i k old second
        (set_object-Keeps this (some s.o) m i k old first shows),
)
  where
    differ : this ≢ other
    differ e = not_free m this other slot s.live (sym e)
