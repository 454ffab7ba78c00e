-- ===== src/Bitstream/Owner/Replaced.antt =====
-- Writes to a slot or a buffer that replace or pass one another.
use logic.Base.{
  ℕ, suc, ◌≡◌, ◌≢◌, refl, sym, ap, Option, none, some, List, ◌==◌, ==_iff, Bool-cases, false, inl,
  inr,
}
use mathlib.Core.Path.{fun_ext}
use logic.Bitstream.Owner.{Object, Memory, put, allocate, set_object}
use logic.Bitstream.Owner.Moved.{put-put}
use logic.Bitstream.Owner.Copied.{with_new}

pub ne-== : (i j : ℕ) → i ≢ j → (i == j) ≡ false
ne-== i j ne = elim (Bool-cases (i == j)) [ inl e ↦ absurd (ne ((==_iff i j).0 e)) | inr e ↦ e ]

pub put-swap {ℓ} :
    {A : Type ℓ} (k l : ℕ) (v u : A) (f : ℕ → A) → k ≢ l → put k v (put l u f) ≡ put l u (put k v f)
put-swap k l v u f ne = fun_ext (λ j. elim (Bool-cases (j == k)) [
  | inl e ↦ rw ((==_iff j k).0 e, ne-== k l ne) refl
  | inr e ↦ rw e refl
])

pub set-set :
    (this : ℕ) (x y : Option Object) (m : Memory)
    → set_object this x (set_object this y m) ≡ set_object this x m
unfolding set_object
set-set this x y m = ap (λ f. record m { object = f }) (put-put this x y m.object)

pub new-object :
    (this n : ℕ) (bits : List ℕ) (x : Memory)
    → some (with_new this n bits x) ≡ some (with_new this n bits (set_object this none x))
unfolding set_object allocate
new-object this n bits x =
    ap
      (λ f.
        some
          (record { object = f; buffer = put x.fresh (some bits) x.buffer; fresh = suc x.fresh }))
      (sym (put-put this (some (record { m_bits = some x.fresh; m_size = n })) none x.object))
