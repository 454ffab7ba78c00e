-- ===== src/Bitstream/Owner/Kept.antt =====
-- Every live object owns the buffer that it points to, and every buffer has an owner: what the steps of
-- the constructors, the assignments and the destructor do to that.
use logic.Base.{
  ◌+◌, ◌^◌, subst, ℕ, ◌<◌, ◌≡◌, ◌≢◌, refl, sym, ap, ◌∙◌, false, none, some, List, arith, length,
  ◌==◌, ==_iff, ==_refl, Bool-cases, inl, inr, ◌⊎◌,
}
use mathlib.Core.Option.{some-injective, none-ne-some}
use logic.Storage.{size}
use logic.Bitstream.Owner.{Object, Memory, put, allocate, set_object, construct_empty}

abbrev pub null_object : Object
null_object = record { m_bits = none; m_size = 0 }

-- The buffer of an object is there and has the bytes that its width needs.
abbrev pub HasBuffer : Memory → Object → ℕ → Type 0
HasBuffer m o p = (bits : List ℕ) × (m.buffer p ≡ some bits) × (length bits ≡ size o.m_size)

pub record IsOwned (m : Memory) : Type 0 where
  pub owner : ℕ → ℕ
  pub owns : (i p : ℕ) (o : Object) → m.object i ≡ some o → o.m_bits ≡ some p → owner p ≡ i
  pub has : (i p : ℕ) (o : Object) → m.object i ≡ some o → o.m_bits ≡ some p → HasBuffer m o p
  pub null : (i : ℕ) (o : Object) → m.object i ≡ some o → o.m_bits ≡ none → o.m_size ≡ 0
  pub no_leak :
      (p : ℕ) (bits : List ℕ)
      → m.buffer p ≡ some bits
      → (o : Object) × (m.object (owner p) ≡ some o) × (o.m_bits ≡ some p)
  pub fits : (i : ℕ) (o : Object) → m.object i ≡ some o → o.m_size + 7 < 2 ^ 64
  pub used : (p : ℕ) (bits : List ℕ) → m.buffer p ≡ some bits → p < m.fresh

module _ {ℓ} {A : Type ℓ} where
  pub put-same : (k : ℕ) (v : A) (f : ℕ → A) → put k v f k ≡ v
  put-same k v f = rw (==_refl k) refl

  pub put-other : (k j : ℕ) (v : A) (f : ℕ → A) → j ≢ k → put k v f j ≡ f j
  put-other k j v f ne = elim (Bool-cases (j == k)) [
    | inl e ↦ absurd (ne ((==_iff j k).0 e))
    | inr e ↦ rw e refl
  ]

  -- A place after a write: the place itself, or another one.
  pub put-inv :
      (k j : ℕ) (v r : A) (f : ℕ → A)
      → put k v f j ≡ r
      → ((j ≡ k) × (v ≡ r)) ⊎ ((j ≢ k) × (f j ≡ r))
  put-inv k j v r f e = elim (Bool-cases (j == k)) [
    | inl same ↦ inl ((==_iff j k).0 same, rw same at e)
    | inr other ↦ inr (differ other, rw other at e)
  ]
    where
      differ : (j == k) ≡ false → j ≢ k
      differ other q = ground arith

pub not_free :
    (m : Memory) (this i : ℕ) {o : Object} → m.object this ≡ none → m.object i ≡ some o → i ≢ this
not_free m this i {o} slot live e = none-ne-some o (sym slot ∙ ap m.object (sym e) ∙ live)

-- A slot without an object takes an object without a buffer.
pub empty-IsOwned :
    {m : Memory} (this : ℕ) → m.object this ≡ none → IsOwned m → IsOwned (construct_empty this m)
unfolding construct_empty set_object
empty-IsOwned {m} this slot w = record {
  owner = w.owner;
  owns = λ i p o e b. w.owns i p o (old i p o e b) b;
  has = λ i p o e b. w.has i p o (old i p o e b) b;
  null = λ i o e b. elim (put-inv this i (some null_object) (some o) m.object e) [
    | inl (same, new) ↦ ap (λ (x : Object). x.m_size) (sym (some-injective null_object o new))
    | inr (other, live) ↦ w.null i o live b
  ];
  no_leak = λ p bits e.
      let (o, live, points) = w.no_leak p bits e in
      (
        o,
        put-other this (w.owner p) (some null_object) m.object
              (not_free m this (w.owner p) slot live)
            ∙ live,
        points,
      );
  fits = λ i o e. elim (put-inv this i (some null_object) (some o) m.object e) [
    | inl (same, new) ↦
        subst (λ (x : Object). x.m_size + 7 < 2 ^ 64) (some-injective null_object o new)
          (omega arith)
    | inr (other, live) ↦ w.fits i o live
  ];
  used = w.used;
}
  where
    old :
        (i p : ℕ) (o : Object)
        → put this (some null_object) m.object i ≡ some o
        → o.m_bits ≡ some p
        → m.object i ≡ some o
    old i p o e b = elim (put-inv this i (some null_object) (some o) m.object e) [
      | inl (same, new) ↦
          absurd
            (none-ne-some p (ap (λ (x : Object). x.m_bits) (some-injective null_object o new) ∙ b))
      | inr (other, live) ↦ live
    ]

-- A slot without an object takes one with a new buffer of the size that it needs.
pub new-IsOwned :
    {m : Memory} (this n : ℕ) (bits : List ℕ)
    → m.object this ≡ none
    → length bits ≡ size n
    → n + 7 < 2 ^ 64
    → IsOwned m
    → IsOwned
        (set_object this (some (record { m_bits = some m.fresh; m_size = n })) (allocate bits m))
unfolding set_object allocate
new-IsOwned {m} this n bits slot long small w = record {
  owner = put m.fresh this w.owner;
  owns = λ i p o e b. elim (put-inv this i (some new) (some o) m.object e) [
    | inl (same, made) ↦
        ap (put m.fresh this w.owner) (sym (at_fresh made b))
        ∙ put-same m.fresh this w.owner
        ∙ sym same
    | inr (other, live) ↦
        let (old, there, size_of) = w.has i p o live b in
        put-other m.fresh p this w.owner (not_fresh (w.used p old there)) ∙ w.owns i p o live b
  ];
  has = λ i p o e b. elim (put-inv this i (some new) (some o) m.object e) [
    | inl (same, made) ↦ (
      bits,
      ap (put m.fresh (some bits) m.buffer) (sym (at_fresh made b))
          ∙ put-same m.fresh (some bits) m.buffer,
      long ∙ ap (λ (x : Object). size x.m_size) (some-injective new o made),
    )
    | inr (other, live) ↦
        let (old, there, size_of) = w.has i p o live b in
        (
          old,
          put-other m.fresh p (some bits) m.buffer (not_fresh (w.used p old there)) ∙ there,
          size_of,
        )
  ];
  null = λ i o e b. elim (put-inv this i (some new) (some o) m.object e) [
    | inl (same, made) ↦ absurd (
        none-ne-some m.fresh
          (sym b ∙ ap (λ (x : Object). x.m_bits) (sym (some-injective new o made))))
    | inr (other, live) ↦ w.null i o live b
  ];
  no_leak = λ p old e. elim (put-inv m.fresh p (some bits) (some old) m.buffer e) [
    | inl (same, stored) ↦ (
      new,
      ap (put this (some new) m.object)
            (ap (put m.fresh this w.owner) same ∙ put-same m.fresh this w.owner)
          ∙ put-same this (some new) m.object,
      ap some (sym same),
    )
    | inr (other, there) ↦
        let (o, live, points) = w.no_leak p old there in
        (
          o,
          ap (put this (some new) m.object) (put-other m.fresh p this w.owner other)
              ∙ put-other this (w.owner p) (some new) m.object
                  (not_free m this (w.owner p) slot live)
              ∙ live,
          points,
        )
  ];
  fits = λ i o e. elim (put-inv this i (some new) (some o) m.object e) [
    | inl (same, made) ↦
        subst (λ (x : Object). x.m_size + 7 < 2 ^ 64) (some-injective new o made) small
    | inr (other, live) ↦ w.fits i o live
  ];
  used = λ p old e. elim (put-inv m.fresh p (some bits) (some old) m.buffer e) [
    | inl (same, stored) ↦ omega (arith, same)
    | inr (other, there) ↦ omega (arith, w.used p old there)
  ];
}
  where
    new : Object
    new = record { m_bits = some m.fresh; m_size = n }

    at_fresh : {o : Object} {p : ℕ} → some new ≡ some o → o.m_bits ≡ some p → m.fresh ≡ p
    at_fresh {o} {p} made b =
        some-injective m.fresh p (ap (λ (x : Object). x.m_bits) (some-injective new o made) ∙ b)

    not_fresh : {p : ℕ} → p < m.fresh → p ≢ m.fresh
    not_fresh h e = omega (arith, e)
