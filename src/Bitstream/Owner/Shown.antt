-- ===== src/Bitstream/Owner/Shown.antt =====
-- The value of an object, and the steps that keep it.
use logic.Base.{ℕ, ◌<◌, ◌≡◌, ◌≢◌, refl, sym, ap, ◌∙◌, Option, none, some, List, [], arith, length}
use mathlib.Core.Option.{some-injective}
use logic.Storage.{size}
use logic.Bitstream.Owner.{Object, Memory, put, allocate, bytes_at, set_object}
use logic.Bitstream.Owner.Kept.{IsOwned, put-other}

-- A live object has a width and bytes.
pub record Shows (m : Memory) (i n : ℕ) (bits : List ℕ) : Type 0 where
  pub o : Object
  pub live : m.object i ≡ some o
  pub sized : o.m_size ≡ n
  pub shown : bytes_at o.m_bits m ≡ some bits

-- Every other object keeps its value.
abbrev pub Keeps : ℕ → Memory → Memory → Type 0
Keeps this m out = (i n : ℕ) (bits : List ℕ) → i ≢ this → Shows m i n bits → Shows out i n bits

pub bytes_at-same :
    (pointer : Option ℕ) (m out : Memory)
    → m.buffer ≡ out.buffer
    → bytes_at pointer m ≡ bytes_at pointer out
unfolding bytes_at
bytes_at-same none m out e = refl
bytes_at-same (some p) m out e = ap (λ f. f p) e

pub set_object-Keeps :
    (this : ℕ) (x : Option Object) (m : Memory) → Keeps this m (set_object this x m)
unfolding set_object
set_object-Keeps this x m i n bits ne s = record {
  o = s.o;
  live = put-other this i x m.object ne ∙ s.live;
  sized = s.sized;
  shown = bytes_at-same s.o.m_bits (record m { object = put this x m.object }) m refl ∙ s.shown;
}

-- A new buffer is behind no pointer that was there.
pub bytes_at-allocate :
    {m : Memory} (o : Object) (pointer : Option ℕ) (new bits : List ℕ)
    → o.m_bits ≡ pointer
    → IsOwned m
    → bytes_at o.m_bits m ≡ some bits
    → bytes_at o.m_bits (allocate new m) ≡ some bits
unfolding bytes_at allocate
bytes_at-allocate {m} o none new bits points w e =
    ap (λ b. bytes_at b (allocate new m)) points ∙ rw points at e
bytes_at-allocate {m} o (some p) new bits points w e =
    rw points (put-other m.fresh p (some new) m.buffer (below (w.used p bits there)) ∙ there)
  where
    there : m.buffer p ≡ some bits
    there = rw points at e

    below : p < m.fresh → p ≢ m.fresh
    below h q = omega (arith, q)

pub allocate-Keeps :
    {m : Memory} (new : List ℕ) (i n : ℕ) (bits : List ℕ)
    → IsOwned m
    → Shows m i n bits
    → Shows (allocate new m) i n bits
allocate-Keeps {m} new i n bits w s = record {
  o = s.o;
  live = unfold allocate in s.live;
  sized = s.sized;
  shown = bytes_at-allocate s.o s.o.m_bits new bits refl w s.shown;
}

-- An object has the bytes that its width needs.
pub length-Shows :
    {m : Memory} (i n : ℕ) (bits : List ℕ) → IsOwned m → Shows m i n bits → length bits ≡ size n
unfolding bytes_at
length-Shows {m} i n bits w s = by_pointer s.o.m_bits refl ∙ ap size s.sized
  where
    by_pointer : (pointer : Option ℕ) → s.o.m_bits ≡ pointer → length bits ≡ size s.o.m_size
    by_pointer none b =
        ap length (sym (some-injective [] bits (rw b at s.shown)))
        ∙ unfold size in rw (w.null i s.o s.live b) refl
    by_pointer (some p) b =
        let (old, there, long) = w.has i p s.o s.live b in
        ap length (sym (some-injective old bits (sym there ∙ rw b at s.shown))) ∙ long
