-- ===== src/Axi4/Stream/SignalBus/Identifiers.antt =====
-- A stream that was sent over a signal of include/logic/axi4/stream/bus_if.hpp, and read.
use logic.Base.{
  ℕ, ◌+◌, ◌*◌, ◌/◌, ◌%◌, ◌^◌, ◌<◌, ◌≤◌, ◌≡◌, refl, sym, ap, ◌∙◌, true, false, ◌&&◌, Option, some,
  none, arith, ltb, leb, if◌then◌else◌, ◌⊎◌, inl, inr, min, length, Bool-cases, ltb-false,
  two-pow_pos, ltb→lt,
}
use native.Mathlib.Nat.{mod-lt, lt_of_lt_of_le, pow-le-pow_right}
use logic.Bits.Digit.{digit, eq_of_digits}
use logic.Bits.Bitwise.{digit-mod, digit-high}
use logic.Storage.Number.{number, number-lt}
use logic.Bitstream.Defs.{Bitstream, make}
use logic.Bitstream.Valid.{IsValid}
use logic.Bitstream.Resize.{make-IsValid, number-make}
use logic.Utils.Fields.{Typed, bits_type-Typed, Readable}
use logic.Axi4.Stream.SignalBus.{Signal, SignalBus, update, send, get_stream, set_stream}
use logic.Axi4.Stream.SignalBus.{
  update_bus, get_tid, set_tid, get_tdest, set_tdest, get_tuser, set_tuser,
}
use logic.Axi4.Stream.SignalBus.Streams.{
  Loaded, load-Loaded, Stored, store-Stored, get_stream_undefined,
}

-- What is read after a stream was sent: its bits that the signal has room for.
pub record ReadBack (w : ℕ) (s : Bitstream) (result : Option Bitstream) : Type 0 where
  pub stream : Bitstream
  pub returns : result ≡ some stream
  pub valid : IsValid stream
  pub size : stream.m_size ≡ w
  pub holds : number stream.m_bits ≡ number s.m_bits % 2 ^ min s.m_size w

pub record Sent (w : ℕ) (s : Bitstream) (signal : Signal ℕ) : Type 0 where
  pub out : Signal ℕ
  pub returns : set_stream w s signal ≡ some out
  pub shown : ReadBack w s (get_stream w (update out))

module _ (w : ℕ) (s : Bitstream) (signal : Signal ℕ) (positive : 1 ≤ w)
    (readable : (w ≤ 32) ⊎ (64 < w)) (fits : w + 7 < 2 ^ 64) (valid : IsValid s) where
  typed : Typed w
  typed = bits_type-Typed w positive

  abbrev bits_size : ℕ
  bits_size = if ltb s.m_size w then s.m_size else w

  bits_size-le : (bits_size ≤ w) × (bits_size ≤ s.m_size)
  bits_size-le = ground arith

  bits_size-eq-min : bits_size ≡ min s.m_size w
  bits_size-eq-min = ground arith

  stored_bits : Stored typed.t s.m_bits bits_size 0 0
  stored_bits =
      store-Stored typed.t s.m_bits bits_size 0 0 valid.are_bytes
        (omega (arith, valid.allocated, bits_size-le.1)) (omega (arith, typed.wide, bits_size-le.0))
        (typed.holds_of 0 (λ e. omega arith))

  can_read : (j : ℕ) → j < 0 + w → Readable typed.t j
  can_read j h = typed.readable j (omega arith) (low readable)
    where
      low : (w ≤ 32) ⊎ (64 < w) → (j < 32) ⊎ (64 < w)
      low (inl small) = inl (omega arith)
      low (inr large) = inr large

  fresh : IsValid (make w)
  fresh = make-IsValid w fits

  room : w ≤ 8 * length (make w).m_bits
  unfolding make
  room = omega (arith, fresh.allocated)

  loaded_bits : Loaded typed.t stored_bits.out w 0 (make w).m_bits
  loaded_bits =
      load-Loaded typed.t stored_bits.out w 0 (make w).m_bits fresh.are_bytes (omega (arith, room))
        can_read

  no_digit : (j : ℕ) → digit 0 j ≡ 0
  no_digit j = digit-high 0 0 j (omega arith) (omega arith)

  cut_digit :
      (j : ℕ)
      → (if ltb j bits_size then digit (number s.m_bits) j else 0)
        ≡ digit (number s.m_bits % 2 ^ bits_size) j
  cut_digit j = elim (Bool-cases (ltb j bits_size)) [
    | inl inside ↦
        rw inside (sym (digit-mod bits_size (number s.m_bits) j (ltb→lt j bits_size inside)))
    | inr outside ↦ rw outside (
        sym (
          digit-high bits_size (number s.m_bits % 2 ^ bits_size) j
            (mod-lt (number s.m_bits) (two-pow_pos bits_size)) (ltb-false j bits_size outside)))
  ]

  sent_digit :
      (j : ℕ)
      → j < w
      → digit stored_bits.out j ≡ (if ltb j bits_size then digit (number s.m_bits) j else 0)
  sent_digit j h =
      stored_bits.stored j (omega (arith, typed.wide))
      ∙ ap (λ (d : ℕ). if leb 0 j && ltb j (0 + bits_size) then digit (number s.m_bits) j else d)
          (no_digit j)
      ∙ from_zero bits_size
    where
      from_zero :
          (n : ℕ)
          → (if leb 0 j && ltb j (0 + n) then digit (number s.m_bits) j else 0)
            ≡ (if ltb j n then digit (number s.m_bits) j else 0)
      from_zero n = ground arith

  read_digit :
      (j : ℕ) → digit (number loaded_bits.out) j ≡ digit (number s.m_bits % 2 ^ bits_size) j
  read_digit j =
      loaded_bits.stored j
      ∙ ap (λ (d : ℕ). if leb 0 j && ltb j (0 + w) then digit stored_bits.out j else d)
          (ap (λ (x : ℕ). digit x j) (number-make w) ∙ no_digit j)
      ∙ by_width (Bool-cases (ltb j w))
      ∙ cut_digit j
    where
      by_width :
          (ltb j w ≡ true) ⊎ (ltb j w ≡ false)
          → (if leb 0 j && ltb j (0 + w) then digit stored_bits.out j else 0)
            ≡ (if ltb j bits_size then digit (number s.m_bits) j else 0)
      by_width (inl inside) = here inside ∙ sent_digit j (ltb→lt j w inside)
        where
          here :
              ltb j w ≡ true
              → (if leb 0 j && ltb j (0 + w) then digit stored_bits.out j else 0)
                ≡ digit stored_bits.out j
          here e = ground arith
      by_width (inr outside) = ground (arith, bits_size-le.0)

  made_length : length (make w).m_bits ≡ (w + 7) / 8
  unfolding make
  made_length = fresh.allocated

  fits_in : number s.m_bits % 2 ^ bits_size < 2 ^ (8 * length loaded_bits.out)
  fits_in = lt_of_lt_of_le (mod-lt (number s.m_bits) (two-pow_pos bits_size)) (
      pow-le-pow_right {n = 2} (omega arith)
        (omega (arith, loaded_bits.same_length, room, bits_size-le.0)))

  pub set_stream-Sent : Sent w s signal
  unfolding set_stream get_stream update send
  set_stream-Sent = record {
    out = record signal { next = stored_bits.out };
    returns = rw (typed.chosen, stored_bits.returns) refl;
    shown = record {
      stream = record { m_bits = loaded_bits.out; m_size = w };
      returns = rw (typed.chosen, loaded_bits.returns) refl;
      valid = record {
        fits = fits;
        allocated = loaded_bits.same_length ∙ made_length;
        are_bytes = loaded_bits.are_bytes;
      };
      size = refl;
      holds =
          eq_of_digits (8 * length loaded_bits.out) _ _
            (number-lt loaded_bits.out loaded_bits.are_bytes) fits_in (λ j lt. read_digit j)
          ∙ ap (λ (n : ℕ). number s.m_bits % 2 ^ n) bits_size-eq-min;
    };
  }

-- An identifier that was written, and what the bus shows after the update of its signals.
pub record IdSent (w : ℕ) (s : Bitstream) (set : Option SignalBus)
    (get : SignalBus → Option Bitstream) : Type 0 where
  pub out : SignalBus
  pub returns : set ≡ some out
  pub shown : ReadBack w s (get (update_bus out))

module _ (w : ℕ) (s : Bitstream) (bus : SignalBus) where
  -- For a width of 1 to 32 bits or of more than 64, any valid stream that is written by
  -- `set_tid`, `set_tdest` or `set_tuser` is read back, after the next update, by `get_tid`,
  -- `get_tdest` or `get_tuser` as a valid stream of the signal's width which holds the number of
  -- the stream, cut to the width if the stream is longer.
  pub identifiers-IdSent :
      1 ≤ w
      → (w ≤ 32) ⊎ (64 < w)
      → w + 7 < 2 ^ 64
      → IsValid s
      → IdSent w s (set_tid w s bus) (get_tid w)
        × IdSent w s (set_tdest w s bus) (get_tdest w)
        × IdSent w s (set_tuser w s bus) (get_tuser w)
  unfolding set_tid set_tdest set_tuser get_tid get_tdest get_tuser update_bus
  identifiers-IdSent h r f v =
      let tid = set_stream-Sent w s bus.tid h r f v in
      let tdest = set_stream-Sent w s bus.tdest h r f v in
      let tuser = set_stream-Sent w s bus.tuser h r f v in
      (
        record {
          out = record bus { tid = tid.out };
          returns = rw tid.returns refl;
          shown = tid.shown;
        },
        record {
          out = record bus { tdest = tdest.out };
          returns = rw tdest.returns refl;
          shown = tdest.shown;
        },
        record {
          out = record bus { tuser = tuser.out };
          returns = rw tuser.returns refl;
          shown = tuser.shown;
        },
      )

-- For a width of 33 to 64 bits, `get_tid`, `get_tdest` and `get_tuser` are undefined whatever the
-- signals hold: the mask `1u << offset` has 32 bits.
pub identifiers_undefined :
    (w : ℕ) (bus : SignalBus)
    → 32 < w
    → w ≤ 64
    → (get_tid w bus ≡ none) × (get_tdest w bus ≡ none) × (get_tuser w bus ≡ none)
unfolding get_tid get_tdest get_tuser
identifiers_undefined w bus h k = (
  get_stream_undefined w bus.tid h k,
  get_stream_undefined w bus.tdest h k,
  get_stream_undefined w bus.tuser h k,
)
