-- ===== src/Bitstream/Owner/Reallocated.antt =====
-- `resize` on the heap, against `resize` of the value.
use logic.Base.{
  ℕ, ◌+◌, ◌≤◌, ◌<◌, ◌^◌, ◌≡◌, ◌≢◌, refl, subst, some, List, arith, length, ◌++◌, take, drop, min,
  length-take, length-drop, length-append, length-replicate, replicate, ◌==◌, Bool-cases, false,
  inl, inr,
}
use logic.Storage.{size, copy_n}
use logic.Storage.Blocks.{copy_n_lem}
use logic.Bitstream.Defs.{Bitstream, resize}
use logic.Bitstream.Valid.{size_lem}
use logic.Bitstream.Owner.{Memory, allocate, bytes_at, reallocate}
use logic.Bitstream.Owner.Kept.{IsOwned, put-same, new-IsOwned}
use logic.Bitstream.Owner.Ended.{Ended, delete-Ended}
use logic.Bitstream.Owner.Moved.{put-put}
use logic.Bitstream.Owner.Shown.{Shows, bytes_at-allocate, length-Shows}
use logic.Bitstream.Owner.Copied.{with_new, Gives, new-Shows, new-Keeps}
use logic.Bitstream.Owner.Assigned.{base, base_slot, base-Keeps, delete-allocate}
use logic.Bitstream.Owner.Replaced.{new-object}

module _ {m : Memory} (this n val : ℕ) (bits : List ℕ) (w : IsOwned m) (s : Shows m this n bits)
    (small : val + 7 < 2 ^ 64) (ended : Ended this s.o m) where
  abbrev common : ℕ
  common = size (min n val)

  abbrev zeros : List ℕ
  zeros = replicate (size val) 0

  abbrev moved : List ℕ
  moved = take common bits ++ drop common zeros

  n_small : n + 7 < 2 ^ 64
  n_small = subst (λ k. k + 7 < 2 ^ 64) s.sized (w.fits this s.o s.live)

  source_lem : common ≤ length bits
  source_lem = omega (
    arith,
    size_lem (min n val) (omega (arith, n_small)),
    size_lem n n_small,
    length-Shows this n bits w s,
  )

  target_lem : common ≤ length zeros
  target_lem = omega (
    arith,
    size_lem (min n val) (omega (arith, n_small)),
    size_lem val small,
    length-replicate {A = ℕ} (size val) 0,
  )

  length-moved : length moved ≡ size val
  length-moved = omega (
    arith,
    length-append (take common bits) (drop common zeros),
    length-take common bits,
    length-drop common zeros,
    length-replicate {A = ℕ} (size val) 0,
    source_lem,
    target_lem,
  )

  copied : copy_n bits common zeros ≡ some moved
  copied = copy_n_lem bits common zeros source_lem target_lem

  value_lem :
      (n == val) ≡ false
      → resize val (record { m_bits = bits; m_size = n })
        ≡ some (record { m_bits = moved; m_size = val })
  unfolding resize
  value_lem ne = rw (ne, copied) refl

  abbrev left : Memory
  left = base this s.o s.live w ended

  reallocate_lem : (n == val) ≡ false → reallocate val this m ≡ some (with_new this val moved left)
  unfolding reallocate allocate
  reallocate_lem ne =
      rw
        (
          s.live,
          s.sized,
          ne,
          source,
          put-same m.fresh (some zeros) m.buffer,
          copied,
          put-put m.fresh (some moved) (some zeros) m.buffer,
          delete-allocate this s.o s.live w ended moved,
          ended.same_fresh,
        )
        (new-object this val moved (record ended.out { fresh = m.fresh }))
    where
      source : bytes_at s.o.m_bits (allocate zeros m) ≡ some bits
      source = bytes_at-allocate s.o s.o.m_bits zeros bits refl w s.shown

  reallocate_follows :
      (out : Bitstream) × (resize val (record { m_bits = bits; m_size = n }) ≡ some out)
      × Gives (reallocate val this m) m this out.m_size out.m_bits
  unfolding resize reallocate
  reallocate_follows = elim (Bool-cases (n == val)) [
    | inl e ↦ (
      record { m_bits = bits; m_size = n },
      rw e refl,
      (m, rw (s.live, s.sized, e) refl, w, s, λ i k old ne shown. shown),
    )
    | inr ne ↦ (
      record { m_bits = moved; m_size = val },
      value_lem ne,
      (
        with_new this val moved left,
        reallocate_lem ne,
        new-IsOwned this val moved (base_slot this s.o s.live w ended) length-moved small
            ended.owned,
        new-Shows left this val moved,
        λ i k old differ shown.
            new-Keeps this val moved ended.owned i k old differ
              (base-Keeps this s.o s.live w ended i k old differ shown),
      ),
    )
  ]

pub reallocate-Gives :
    {m : Memory} (this n val : ℕ) (bits : List ℕ)
    → IsOwned m
    → Shows m this n bits
    → val + 7 < 2 ^ 64
    → (out : Bitstream) × (resize val (record { m_bits = bits; m_size = n }) ≡ some out)
      × Gives (reallocate val this m) m this out.m_size out.m_bits
reallocate-Gives this n val bits w s small =
    reallocate_follows this n val bits w s small (delete-Ended this s.o s.live w)

-- When every live object owns its buffer and the new width can be rounded up to bytes, `resize` on
-- the heap returns and gives `this` what `resize` of its value returns, and every other object
-- keeps its own.
pub reallocate-values :
    {m : Memory} (this n val i k : ℕ) (bits old : List ℕ)
    → IsOwned m
    → Shows m this n bits
    → val + 7 < 2 ^ 64
    → i ≢ this
    → Shows m i k old
    → (out : Bitstream) × (resize val (record { m_bits = bits; m_size = n }) ≡ some out)
      × ((after : Memory) × (reallocate val this m ≡ some after)
          × Shows after this out.m_size out.m_bits
          × Shows after i k old)
reallocate-values this n val i k bits old w s small differ shown =
    let (out, resized, (after, returns, owned, shows, keeps)) =
      reallocate-Gives this n val bits w s small in
    (out, resized, (after, returns, shows, keeps i k old differ shown))
