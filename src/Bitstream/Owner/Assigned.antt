-- ===== src/Bitstream/Owner/Assigned.antt =====
-- The destructor, and the assignments: each is the destructor of the old value and the constructor of the
-- new one.
use logic.Base.{
  ℕ, suc, ◌<◌, ◌≡◌, ◌≢◌, refl, sym, ap, subst, ◌∙◌, Option, none, some, List, arith, length,
  length-replicate, replicate, ==_refl,
}
use mathlib.Core.Option.{some-injective}
use logic.Storage.{size}
use logic.Bitstream.Owner.{
  Object, Memory, put, allocate, delete, bytes_at, set_object, copy_in, copy_construct,
  move_construct, copy_assign, move_assign, destroy,
}
use logic.Bitstream.Owner.Kept.{IsOwned, HasBuffer, null_object, put-same, put-other}
use logic.Bitstream.Owner.Ended.{Ended, delete-Ended}
use logic.Bitstream.Owner.Replaced.{ne-==, put-swap, set-set, new-object}
use logic.Bitstream.Owner.Shown.{
  Shows, Keeps, bytes_at-same, bytes_at-allocate, set_object-Keeps, length-Shows,
}
use logic.Bitstream.Owner.Copied.{
  copy_in_lem, Gives, Hands, copy_construct-Gives, move_construct-Hands,
}

module _ {m : Memory} (this : ℕ) (t : Object) (live : m.object this ≡ some t) (w : IsOwned m)
    (e : Ended this t m) where
  abbrev pub base : Memory
  base = set_object this none e.out

  destroy_lem : destroy this m ≡ some base
  unfolding destroy
  destroy_lem = rw (live, e.returns) refl

  pub base_slot : base.object this ≡ none
  unfolding set_object
  base_slot = put-same this none e.out.object

  pub base-Keeps : Keeps this m base
  base-Keeps i n bits ne s = set_object-Keeps this none e.out i n bits ne (record {
    o = s.o;
    live = ap (λ f. f i) e.objects ∙ s.live;
    sized = s.sized;
    shown = e.others i s.o ne s.live ∙ s.shown;
  })

  -- The new buffer is not the deleted one.
  pub delete-allocate :
      (new : List ℕ) → delete t.m_bits (allocate new m) ≡ some (allocate new e.out)
  unfolding delete allocate
  delete-allocate new = by_pointer t.m_bits refl
    where
      by_pointer :
          (pointer : Option ℕ)
          → t.m_bits ≡ pointer
          → delete t.m_bits (allocate new m) ≡ some (allocate new e.out)
      by_pointer none b =
          ap (λ q. delete q (allocate new m)) b
          ∙ ap (λ x. some (allocate new x)) (some-injective m e.out (rw b at e.returns))
      by_pointer (some p) b = with_buffer (w.has this p t live b)
        where
          apart : p < m.fresh → p ≢ m.fresh
          apart below same = omega (arith, same)

          with_buffer :
              HasBuffer m t p → delete t.m_bits (allocate new m) ≡ some (allocate new e.out)
          with_buffer (bits, there, long) =
              ap (λ q. delete q (allocate new m)) b
              ∙ rw (put-other m.fresh p (some new) m.buffer (apart (w.used p bits there)), there)
                  (ap (λ f. some (record { object = m.object; buffer = f; fresh = suc m.fresh }))
                      (put-swap p m.fresh none (some new) m.buffer (apart (w.used p bits there)))
                    ∙ ap (λ x. some (allocate new x))
                        (some-injective (record m { buffer = put p none m.buffer }) e.out
                          (rw (b, there) at e.returns)))

  -- The value of another object behind the old one.
  base-Shows :
      (other n : ℕ) (bits : List ℕ) → this ≢ other → Shows m other n bits → Shows base other n bits
  base-Shows other n bits ne s = base-Keeps other n bits (λ same. ne (sym same)) s

  base_live :
      {other : ℕ} {o : Object} → this ≢ other → m.object other ≡ some o → base.object other ≡ some o
  unfolding set_object
  base_live {other} ne here =
      put-other this other none e.out.object (λ same. ne (sym same))
      ∙ ap (λ f. f other) e.objects
      ∙ here

  -- The copy of a new value, before the old object is gone and after it.
  copy_assign-Gives :
      (garbage other n : ℕ) (bits : List ℕ)
      → this ≢ other
      → Shows m other n bits
      → Gives (copy_assign garbage this other m) m this n bits
  unfolding copy_assign copy_construct
  copy_assign-Gives garbage other n bits ne s =
      let (out, returns, owned, shows, keeps) =
        copy_construct-Gives garbage this other n bits base_slot e.owned
          (base-Shows other n bits ne s) in
      (
        out,
        assigned ∙ returns,
        owned,
        shows,
        λ i k old differ shown. keeps i k old differ (base-Keeps i k old differ shown),
      )
    where
      room : length (replicate (size s.o.m_size) garbage) ≡ size s.o.m_size
      room = length-replicate (size s.o.m_size) garbage

      long : length bits ≡ size s.o.m_size
      long = length-Shows other n bits w s ∙ ap size (sym s.sized)

      source_after :
          bytes_at s.o.m_bits (allocate (replicate (size s.o.m_size) garbage) base) ≡ some bits
      source_after =
          bytes_at-allocate s.o s.o.m_bits (replicate (size s.o.m_size) garbage) bits refl e.owned (
            bytes_at-same s.o.m_bits base e.out (unfold set_object in refl)
            ∙ e.others other s.o (λ same. ne (sym same)) s.live
            ∙ s.shown)

      copied_after :
          copy_in base.fresh s.o (allocate (replicate (size s.o.m_size) garbage) base)
          ≡ some (allocate bits base)
      copied_after =
          copy_in_lem base (replicate (size s.o.m_size) garbage) bits s.o source_after long room

      copied_before :
          copy_in m.fresh s.o (allocate (replicate (size s.o.m_size) garbage) e.out)
          ≡ some (allocate bits e.out)
      copied_before =
          subst
            (λ f.
              copy_in f s.o (allocate (replicate (size s.o.m_size) garbage) e.out)
              ≡ some (allocate bits e.out))
            e.same_fresh
            (copy_in_lem e.out (replicate (size s.o.m_size) garbage) bits s.o
              (bytes_at-same s.o.m_bits (allocate (replicate (size s.o.m_size) garbage) e.out)
                  (allocate (replicate (size s.o.m_size) garbage) base)
                  (unfold set_object allocate in refl)
                ∙ source_after)
              long room)

      assigned : copy_assign garbage this other m ≡ copy_construct garbage this other base
      assigned =
          rw
            (
              ne-== this other ne,
              live,
              s.live,
              delete-allocate (replicate (size s.o.m_size) garbage),
              copied_before,
              base_live ne s.live,
              copied_after,
              e.same_fresh,
            )
            (new-object this s.o.m_size bits (record e.out { fresh = m.fresh }))

  move_assign-Hands :
      (other n : ℕ) (bits : List ℕ)
      → this ≢ other
      → Shows m other n bits
      → Hands (move_assign this other m) m this other n bits
  unfolding move_assign move_construct
  move_assign-Hands other n bits ne s =
      let (out, returns, owned, shows, empty, keeps) =
        move_construct-Hands this other n bits base_slot e.owned (base-Shows other n bits ne s) in
      (
        out,
        assigned ∙ returns,
        owned,
        shows,
        empty,
        λ i k old first second shown. keeps i k old first second (base-Keeps i k old first shown),
      )
    where
      assigned : move_assign this other m ≡ move_construct this other base
      assigned =
          rw (ne-== this other ne, live, s.live, e.returns, base_live ne s.live)
            (ap (λ x. some (set_object other (some null_object) x))
              (sym (set-set this (some s.o) none e.out)))

-- What the end of an object has to do: it is gone, every object that is left owns its buffer, and each of
-- them keeps its value.
abbrev pub Ends : Option Memory → Memory → ℕ → Type 0
Ends result m this =
    (out : Memory) × (result ≡ some out) × IsOwned out × (out.object this ≡ none) × Keeps this m out

pub destroy-Ends :
    {m : Memory} (this : ℕ) (t : Object)
    → m.object this ≡ some t
    → IsOwned m
    → Ends (destroy this m) m this
destroy-Ends {m} this t live w =
    let e = delete-Ended this t live w in
    (
      base this t live w e,
      destroy_lem this t live w e,
      e.owned,
      base_slot this t live w e,
      base-Keeps this t live w e,
    )

pub copy_assign-Shows :
    {m : Memory} (garbage this other n : ℕ) (t : Object) (bits : List ℕ)
    → m.object this ≡ some t
    → IsOwned m
    → this ≢ other
    → Shows m other n bits
    → Gives (copy_assign garbage this other m) m this n bits
copy_assign-Shows garbage this other n t bits live w ne s =
    copy_assign-Gives this t live w (delete-Ended this t live w) garbage other n bits ne s

pub move_assign-Shows :
    {m : Memory} (this other n : ℕ) (t : Object) (bits : List ℕ)
    → m.object this ≡ some t
    → IsOwned m
    → this ≢ other
    → Shows m other n bits
    → Hands (move_assign this other m) m this other n bits
move_assign-Shows this other n t bits live w ne s =
    move_assign-Hands this t live w (delete-Ended this t live w) other n bits ne s

pub self_assign :
    (garbage this : ℕ) (m : Memory)
    → (copy_assign garbage this this m ≡ some m) × (move_assign this this m ≡ some m)
unfolding copy_assign move_assign
self_assign garbage this m = (rw (==_refl this) refl, rw (==_refl this) refl)
