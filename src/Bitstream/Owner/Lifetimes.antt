-- ===== src/Bitstream/Owner/Lifetimes.antt =====
-- Programs that make, assign and end bit streams: a call names live objects, and a constructor a variable
-- that has none.
use logic.Base.{
  ap, ◌+◌, ◌<◌, ◌^◌, ℕ, ◌≡◌, ◌≢◌, refl, sym, subst, ◌∙◌, Option, none, some, List, [],
  length-replicate, replicate, Bool-cases, false, inl, inr, ◌==◌, ==_iff, arith,
}
use mathlib.Core.Option.{none-ne-some, some-injective}
use logic.Storage.{size}
use logic.Bitstream.Owner.{
  Object, Memory, Call, empty_of, sized_of, copied_of, moved_of, copy_to, move_to, resize_to,
  end_of, call, bytes_at, construct, construct_empty, copy_assign, move_assign,
}
use logic.Bitstream.Owner.Kept.{IsOwned, empty-IsOwned, new-IsOwned}
use logic.Bitstream.Owner.Shown.{Shows}
use logic.Bitstream.Owner.Copied.{copy_construct-Gives, move_construct-Hands}
use logic.Bitstream.Owner.Reallocated.{reallocate-Gives}
use logic.Bitstream.Owner.Assigned.{destroy-Ends, copy_assign-Shows, move_assign-Shows, self_assign}

abbrev pub IsFree : ℕ → Memory → Type 0
IsFree i m = m.object i ≡ none

abbrev pub IsLive : ℕ → Memory → Type 0
IsLive i m = (o : Object) × (m.object i ≡ some o)

-- The objects that C++ lets a call name, and the widths that can be rounded up to bytes.
unfoldable pub IsScoped : Call → Memory → Type 0
IsScoped (empty_of this) m = IsFree this m
IsScoped (sized_of this n) m = IsFree this m × (n + 7 < 2 ^ 64)
IsScoped (copied_of this other) m = IsFree this m × IsLive other m
IsScoped (moved_of this other) m = IsFree this m × IsLive other m
IsScoped (copy_to this other) m = IsLive this m × IsLive other m
IsScoped (move_to this other) m = IsLive this m × IsLive other m
IsScoped (resize_to this val) m = IsLive this m × (val + 7 < 2 ^ 64)
IsScoped (end_of this) m = IsLive this m

-- A live object has a value.
shows :
    {m : Memory} (i : ℕ) (o : Object)
    → m.object i ≡ some o
    → IsOwned m
    → (bits : List ℕ) × Shows m i o.m_size bits
shows {m} i o live w = by_pointer o.m_bits refl
  where
    by_pointer :
        (pointer : Option ℕ) → o.m_bits ≡ pointer → (bits : List ℕ) × Shows m i o.m_size bits
    by_pointer none b = (
      [],
      record {
        o = o;
        live = live;
        sized = refl;
        shown = unfold bytes_at in ap (λ q. bytes_at q m) b;
      },
    )
    by_pointer (some p) b =
        let (bits, there, long) = w.has i p o live b in
        (
          bits,
          record {
            o = o;
            live = live;
            sized = refl;
            shown = unfold bytes_at in ap (λ q. bytes_at q m) b ∙ there;
          },
        )

abbrev Steps : Option Memory → Type 0
Steps result = (out : Memory) × (result ≡ some out) × IsOwned out

copy_step :
    {m : Memory} (garbage this other : ℕ)
    → IsLive this m
    → IsLive other m
    → IsOwned m
    → Steps (copy_assign garbage this other m)
copy_step {m} garbage this other (t, here) (o, there) w = elim (Bool-cases (this == other)) [
  | inl same ↦ (
    m,
    subst (λ k. copy_assign garbage this k m ≡ some m) ((==_iff this other).0 same)
        (self_assign garbage this m).0,
    w,
  )
  | inr ne ↦
      let (bits, s) = shows other o there w in
      let (out, returns, owned, shown, kept) =
        copy_assign-Shows garbage this other o.m_size t bits here w (differ ne) s in
      (out, returns, owned)
]
  where
    differ : (this == other) ≡ false → this ≢ other
    differ q = ground arith

move_step :
    {m : Memory} (this other : ℕ)
    → IsLive this m
    → IsLive other m
    → IsOwned m
    → Steps (move_assign this other m)
move_step {m} this other (t, here) (o, there) w = elim (Bool-cases (this == other)) [
  | inl same ↦ (
    m,
    subst (λ k. move_assign this k m ≡ some m) ((==_iff this other).0 same)
        (self_assign 0 this m).1,
    w,
  )
  | inr ne ↦
      let (bits, s) = shows other o there w in
      let (out, returns, owned, shown, kept, empty) =
        move_assign-Shows this other o.m_size t bits here w (differ ne) s in
      (out, returns, owned)
]
  where
    differ : (this == other) ≡ false → this ≢ other
    differ q = ground arith

call-Steps :
    {m : Memory} (garbage : ℕ) (c : Call) → IsScoped c m → IsOwned m → Steps (call garbage c m)
unfolding call IsScoped construct
call-Steps {m} garbage (empty_of this) slot w =
    (construct_empty this m, refl, empty-IsOwned this slot w)
call-Steps {m} garbage (sized_of this n) (slot, small) w = (
  construct this n m,
  refl,
  new-IsOwned this n (replicate (size n) 0) slot (length-replicate (size n) 0) small w,
)
call-Steps {m} garbage (copied_of this other) (slot, (o, there)) w =
    let (bits, s) = shows other o there w in
    let (out, returns, owned, shown, kept) =
      copy_construct-Gives garbage this other o.m_size bits slot w s in
    (out, returns, owned)
call-Steps {m} garbage (moved_of this other) (slot, (o, there)) w =
    let (bits, s) = shows other o there w in
    let (out, returns, owned, shown, kept, empty) =
      move_construct-Hands this other o.m_size bits slot w s in
    (out, returns, owned)
call-Steps {m} garbage (copy_to this other) (here, there) w =
    copy_step garbage this other here there w
call-Steps {m} garbage (move_to this other) (here, there) w = move_step this other here there w
call-Steps {m} garbage (resize_to this val) ((t, here), small) w =
    let (bits, s) = shows this t here w in
    let (value, resized, (out, returns, owned, shown, kept)) =
      reallocate-Gives this t.m_size val bits w s small in
    (out, returns, owned)
call-Steps {m} garbage (end_of this) (t, here) w =
    let (out, returns, owned, shown, kept) = destroy-Ends this t here w in (out, returns, owned)

abbrev pub empty_memory : Memory
empty_memory = record { object = λ i. none; buffer = λ p. none; fresh = 0 }

-- The memories that a program reaches.
pub data Reached (garbage : ℕ) : Memory → Type 0 where
  start : Reached garbage empty_memory
  after :
      {m out : Memory} (c : Call)
      → Reached garbage m
      → IsScoped c m
      → call garbage c m ≡ some out
      → Reached garbage out

pub reached-IsOwned : {garbage : ℕ} {m : Memory} → Reached garbage m → IsOwned m
reached-IsOwned start = record {
  owner = λ p. 0;
  owns = λ i p o e b. absurd (none-ne-some o e);
  has = λ i p o e b. absurd (none-ne-some o e);
  null = λ i o e b. absurd (none-ne-some o e);
  fits = λ i o e. absurd (none-ne-some o e);
  no_leak = λ p bits e. absurd (none-ne-some bits e);
  used = λ p bits e. absurd (none-ne-some bits e);
}
reached-IsOwned {garbage} (after {m} {out} c before scoped e) =
    let (next, returns, owned) = call-Steps garbage c scoped (reached-IsOwned before) in
    subst IsOwned (some-injective next out (sym returns ∙ e)) owned

-- After any sequence of constructors, assignments, resizes and destructors of bit streams that name
-- live objects, or for a constructor a variable without one, with widths that can be rounded up to
-- bytes, a further such call returns: no buffer is deleted twice or read after it was deleted; and
-- in the memory after it every live object that points to a buffer is its only owner, the buffer is
-- there and has the bytes that the object's width needs, and every buffer has an owner.
pub call_returns :
    {m : Memory} (garbage : ℕ) (c : Call)
    → Reached garbage m
    → IsScoped c m
    → (out : Memory) × (call garbage c m ≡ some out) × Reached garbage out × IsOwned out
call_returns garbage c r scoped =
    let (out, returns, owned) = call-Steps garbage c scoped (reached-IsOwned r) in
    (out, returns, after c r scoped returns, owned)

-- When all objects that such a sequence of constructors, assignments, resizes and destructors as in
-- `call_returns` has made have ended, no buffer is left.
pub no_leak :
    {garbage : ℕ} (m : Memory) (p : ℕ)
    → Reached garbage m
    → ((i : ℕ) → IsFree i m)
    → m.buffer p ≡ none
no_leak m p r gone = by_buffer (m.buffer p) refl
  where
    by_buffer : (b : Option (List ℕ)) → m.buffer p ≡ b → b ≡ none
    by_buffer none e = refl
    by_buffer (some bits) e =
        let w = reached-IsOwned r in
        let (o, live, points) = w.no_leak p bits e in
        absurd (none-ne-some o (sym (gone (w.owner p)) ∙ live))
