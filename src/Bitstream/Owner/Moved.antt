-- ===== src/Bitstream/Owner/Moved.antt =====
-- An object that takes over the buffer of another one.
use mathlib.Core.Path.{fun_ext}
use logic.Base.{
  ◌+◌, ◌<◌, ◌^◌, subst, arith, ℕ, ◌≡◌, ◌≢◌, refl, sym, ap, ◌∙◌, Option, none, some, inl, inr,
  Bool-cases, ◌==◌, ==_iff, false,
}
use mathlib.Core.Option.{some-injective, none-ne-some}
use mathlib.Core.Bool.{false≢true}
use logic.Storage.{size}
use logic.Bitstream.Owner.{Object, Memory, put, set_object}
use logic.Bitstream.Owner.Kept.{
  IsOwned, HasBuffer, null_object, put-same, put-other, put-inv, not_free,
}

pub put-put {ℓ} : {A : Type ℓ} (k : ℕ) (v u : A) (f : ℕ → A) → put k v (put k u f) ≡ put k v f
put-put k v u f =
    fun_ext (λ j. elim (Bool-cases (j == k)) [ inl e ↦ rw e refl | inr e ↦ rw e refl ])

module _ {m : Memory} (this other : ℕ) (o : Object) (slot : m.object this ≡ none)
    (live : m.object other ≡ some o) (w : IsOwned m) where
  abbrev moved : ℕ → Option Object
  moved = put other (some null_object) (put this (some o) m.object)

  differ : this ≢ other
  differ e = none-ne-some o (sym slot ∙ ap m.object e ∙ live)

  data Place (i : ℕ) (x : Object) : Type 0 where
    emptied : i ≡ other → null_object ≡ x → Place i x
    taken : i ≡ this → o ≡ x → Place i x
    left : i ≢ other → m.object i ≡ some x → Place i x

  place : (i : ℕ) (x : Object) → moved i ≡ some x → Place i x
  place i x e = elim (put-inv other i (some null_object) (some x) (put this (some o) m.object) e) [
    | inl (same, new) ↦ emptied same (some-injective null_object x new)
    | inr (ne, e') ↦ elim (put-inv this i (some o) (some x) m.object e') [
      | inl (same, new) ↦ taken same (some-injective o x new)
      | inr (further, e'') ↦ left ne e''
    ]
  ]

  at_this : moved this ≡ some o
  at_this =
      put-other other this (some null_object) (put this (some o) m.object) differ
      ∙ put-same this (some o) m.object

  elsewhere : (i : ℕ) {x : Object} → i ≢ other → m.object i ≡ some x → moved i ≡ some x
  elsewhere i ne e =
      put-other other i (some null_object) (put this (some o) m.object) ne
      ∙ put-other this i (some o) m.object (not_free m this i slot e)
      ∙ e

  abbrev moved_memory : Memory
  moved_memory = set_object other (some null_object) (set_object this (some o) m)

  -- The pointer of an object that was left is not that of the moved one.
  other_pointer :
      (p i q : ℕ) (x : Object)
      → o.m_bits ≡ some p
      → i ≢ other
      → m.object i ≡ some x
      → x.m_bits ≡ some q
      → q ≢ p
  other_pointer p i q x b ne e points same =
      ne (sym (w.owns i q x e points) ∙ ap w.owner same ∙ w.owns other p o live b)

  null_size : {i : ℕ} {x : Object} → Place i x → x.m_bits ≡ none → x.m_size ≡ 0
  null_size {i} {x} (emptied same e) b = ap (λ (y : Object). y.m_size) (sym e)
  null_size {i} {x} (taken same e) b =
      ap (λ (y : Object). y.m_size) (sym e)
      ∙ w.null other o live (ap (λ (y : Object). y.m_bits) e ∙ b)
  null_size {i} {x} (left ne e) b = w.null i x e b

  has_fit : {i : ℕ} {x : Object} → Place i x → x.m_size + 7 < 2 ^ 64
  has_fit {i} {x} (emptied same e) = subst (λ (y : Object). y.m_size + 7 < 2 ^ 64) e (omega arith)
  has_fit {i} {x} (taken same e) =
      subst (λ (y : Object). y.m_size + 7 < 2 ^ 64) e (w.fits other o live)
  has_fit {i} {x} (left ne e) = w.fits i x e

  has_buffer : {i p : ℕ} {x : Object} → Place i x → x.m_bits ≡ some p → HasBuffer m x p
  has_buffer {i} {p} {x} (emptied same e) b =
      absurd (none-ne-some p (ap (λ (y : Object). y.m_bits) e ∙ b))
  has_buffer {i} {p} {x} (taken same e) b =
      let (bits, there, long) = w.has other p o live (ap (λ (y : Object). y.m_bits) e ∙ b) in
      (bits, there, long ∙ ap (λ (y : Object). size y.m_size) e)
  has_buffer {i} {p} {x} (left ne e) b = w.has i p x e b

  move_buffer : (p : ℕ) → o.m_bits ≡ some p → IsOwned moved_memory
  unfolding set_object
  move_buffer p b = record {
    owner = put p this w.owner;
    owns = λ i q x e points. owned (place i x e) points;
    has = λ i q x e points. has_buffer (place i x e) points;
    null = λ i x e points. null_size (place i x e) points;
    no_leak = λ q bits there. elim (Bool-cases (q == p)) [
      | inl same ↦ (o, rw same at_this, b ∙ ap some (sym ((==_iff q p).0 same)))
      | inr ne ↦
          let (x, here, points) = w.no_leak q bits there in
          (x, rw ne (elsewhere (w.owner q) (still ne here points) here), points)
    ];
    fits = λ i x e. has_fit (place i x e);
    used = w.used;
  }
    where
      owned : {i q : ℕ} {x : Object} → Place i x → x.m_bits ≡ some q → put p this w.owner q ≡ i
      owned {i} {q} {x} (emptied same e) points =
          absurd (none-ne-some q (ap (λ (y : Object). y.m_bits) e ∙ points))
      owned {i} {q} {x} (taken same e) points =
          ap (put p this w.owner)
            (some-injective q p (sym points ∙ ap (λ (y : Object). y.m_bits) (sym e) ∙ b))
          ∙ put-same p this w.owner
          ∙ sym same
      owned {i} {q} {x} (left ne e) points =
          put-other p q this w.owner (other_pointer p i q x b ne e points) ∙ w.owns i q x e points

      still :
          {q : ℕ} {x : Object}
          → (q == p) ≡ false
          → m.object (w.owner q) ≡ some x
          → x.m_bits ≡ some q
          → w.owner q ≢ other
      still {q} {x} ne here points same = false≢true (
          sym ne
          ∙ (==_iff q p).1 (
              some-injective q p (
                sym points
                ∙ ap (λ (y : Object). y.m_bits)
                    (some-injective x o (sym here ∙ ap m.object same ∙ live))
                ∙ b)))

  move_null : o.m_bits ≡ none → IsOwned moved_memory
  unfolding set_object
  move_null b = record {
    owner = w.owner;
    owns = λ i q x e points. owned (place i x e) points;
    has = λ i q x e points. has_buffer (place i x e) points;
    null = λ i x e points. null_size (place i x e) points;
    no_leak = λ q bits there.
        let (x, here, points) = w.no_leak q bits there in
        (x, elsewhere (w.owner q) (still here points) here, points);
    fits = λ i x e. has_fit (place i x e);
    used = w.used;
  }
    where
      owned : {i q : ℕ} {x : Object} → Place i x → x.m_bits ≡ some q → w.owner q ≡ i
      owned {i} {q} {x} (emptied same e) points =
          absurd (none-ne-some q (ap (λ (y : Object). y.m_bits) e ∙ points))
      owned {i} {q} {x} (taken same e) points =
          absurd (none-ne-some q (sym b ∙ ap (λ (y : Object). y.m_bits) e ∙ points))
      owned {i} {q} {x} (left ne e) points = w.owns i q x e points

      still :
          {q : ℕ} {x : Object}
          → m.object (w.owner q) ≡ some x
          → x.m_bits ≡ some q
          → w.owner q ≢ other
      still {q} {x} here points same = none-ne-some q (
          sym b
          ∙ ap (λ (y : Object). y.m_bits)
              (some-injective o x (sym live ∙ ap m.object (sym same) ∙ here))
          ∙ points)

  pub moved-IsOwned : IsOwned moved_memory
  moved-IsOwned = by_pointer o.m_bits refl
    where
      by_pointer : (pointer : Option ℕ) → o.m_bits ≡ pointer → IsOwned moved_memory
      by_pointer none b = move_null b
      by_pointer (some p) b = move_buffer p b
