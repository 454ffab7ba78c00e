-- ===== src/Bitstream/Owner/Ended.antt =====
-- The end of an object, and its move to another slot.
use logic.Base.{ℕ, ◌≡◌, ◌≢◌, refl, sym, ap, ◌∙◌, Option, none, some, inl, inr}
use mathlib.Core.Option.{some-injective, none-ne-some}
use logic.Bitstream.Owner.{Object, Memory, put, delete, bytes_at, set_object}
use logic.Bitstream.Owner.Kept.{IsOwned, HasBuffer, put-other, put-inv}

-- The buffer of an object that ends is deleted, once, and no other one changes.
pub record Ended (this : ℕ) (t : Object) (m : Memory) : Type 0 where
  pub out : Memory
  pub returns : delete t.m_bits m ≡ some out
  pub owned : IsOwned (set_object this none out)
  pub objects : out.object ≡ m.object
  pub same_fresh : out.fresh ≡ m.fresh
  pub buffers :
      (q : ℕ)
      → out.buffer q ≡ (elim t.m_bits [ none ↦ m.buffer q | some p ↦ put p none m.buffer q ])
  pub others :
      (i : ℕ) (o : Object)
      → i ≢ this
      → m.object i ≡ some o
      → bytes_at o.m_bits out ≡ bytes_at o.m_bits m

module _ {m : Memory} (this : ℕ) (t : Object) (live : m.object this ≡ some t) (w : IsOwned m) where
  remains :
      (i : ℕ) (o : Object) → put this none m.object i ≡ some o → (i ≢ this) × (m.object i ≡ some o)
  remains i o e = elim (put-inv this i none (some o) m.object e) [
    | inl (same, gone) ↦ absurd (none-ne-some o gone)
    | inr other ↦ other
  ]

  stays : (i : ℕ) {o : Object} → i ≢ this → m.object i ≡ some o → put this none m.object i ≡ some o
  stays i ne e = put-other this i none m.object ne ∙ e

  same_object : {i : ℕ} {o : Object} → m.object i ≡ some o → i ≡ this → t ≡ o
  same_object {i} {o} e same = some-injective t o (sym live ∙ ap m.object (sym same) ∙ e)

  end_null : t.m_bits ≡ none → IsOwned (set_object this none m)
  unfolding set_object
  end_null b = record {
    owner = w.owner;
    owns = λ i p o e points. w.owns i p o (remains i o e).1 points;
    has = λ i p o e points. w.has i p o (remains i o e).1 points;
    null = λ i o e points. w.null i o (remains i o e).1 points;
    no_leak = λ p bits there.
        let (o, here, points) = w.no_leak p bits there in
        (
          o,
          stays (w.owner p)
              (λ same.
                none-ne-some p
                  (sym b ∙ ap (λ (x : Object). x.m_bits) (same_object here same) ∙ points))
              here,
          points,
        );
    fits = λ i o e. w.fits i o (remains i o e).1;
    used = w.used;
  }

  abbrev without : ℕ → Memory
  without p = record m { buffer = put p none m.buffer }

  -- Another object points to another buffer.
  apart :
      (p i q : ℕ) (o : Object)
      → t.m_bits ≡ some p
      → i ≢ this
      → m.object i ≡ some o
      → o.m_bits ≡ some q
      → q ≢ p
  apart p i q o b ne e points same =
      ne (sym (w.owns i q o e points) ∙ ap w.owner same ∙ w.owns this p t live b)

  end_buffer : (p : ℕ) → t.m_bits ≡ some p → IsOwned (set_object this none (without p))
  unfolding set_object
  end_buffer p b = record {
    owner = w.owner;
    owns = λ i q o e points. w.owns i q o (remains i o e).1 points;
    has = λ i q o e points.
        let (bits, there, long) = w.has i q o (remains i o e).1 points in
        (
          bits,
          put-other p q none m.buffer (apart p i q o b (remains i o e).0 (remains i o e).1 points)
              ∙ there,
          long,
        );
    null = λ i o e points. w.null i o (remains i o e).1 points;
    no_leak = λ q bits e. elim (put-inv p q none (some bits) m.buffer e) [
      | inl (same, gone) ↦ absurd (none-ne-some bits gone)
      | inr (other, there) ↦
          let (o, here, points) = w.no_leak q bits there in
          (
            o,
            stays (w.owner q)
                (λ same. other (
                  some-injective q p
                    (sym points ∙ ap (λ (x : Object). x.m_bits) (sym (same_object here same)) ∙ b)))
                here,
            points,
          )
    ];
    fits = λ i o e. w.fits i o (remains i o e).1;
    used = λ q bits e. elim (put-inv p q none (some bits) m.buffer e) [
      | inl (same, gone) ↦ absurd (none-ne-some bits gone)
      | inr (other, there) ↦ w.used q bits there
    ];
  }

  pub delete-Ended : Ended this t m
  delete-Ended = by_pointer t.m_bits refl
    where
      by_pointer : (pointer : Option ℕ) → t.m_bits ≡ pointer → Ended this t m
      by_pointer none b = record {
        out = m;
        returns = unfold delete in rw b refl;
        owned = end_null b;
        objects = refl;
        same_fresh = refl;
        buffers = λ q. rw b refl;
        others = λ i o ne e. refl;
      }
      by_pointer (some p) b = record {
        out = without p;
        returns = deleted p b (w.has this p t live b);
        owned = end_buffer p b;
        objects = refl;
        same_fresh = refl;
        buffers = λ q. rw b refl;
        others = λ i o ne e. unchanged p i o o.m_bits refl b ne e;
      }
        where
          deleted :
              (p : ℕ) → t.m_bits ≡ some p → HasBuffer m t p → delete t.m_bits m ≡ some (without p)
          deleted p b (bits, there, long) = unfold delete in rw (b, there) refl

          unchanged :
              (p i : ℕ) (o : Object) (pointer : Option ℕ)
              → o.m_bits ≡ pointer
              → t.m_bits ≡ some p
              → i ≢ this
              → m.object i ≡ some o
              → bytes_at o.m_bits (without p) ≡ bytes_at o.m_bits m
          unchanged p i o none points b ne e = unfold bytes_at in rw points refl
          unchanged p i o (some q) points b ne e =
              unfold bytes_at in
              rw points (put-other p q none m.buffer (apart p i q o b ne e points))
