-- ===== src/Axi4/Stream/RxDriver/Beats.antt =====
-- What a receiver takes from the bus, and what an item should give it.
use logic.Base.{
  ℕ, zero, suc, ◌+◌, ◌*◌, min, ◌≡◌, refl, sym, ap, ap₂, ◌∙◌, Bool, ◌&&◌, List, [], ◌∷◌, ◌++◌, arith,
  length, get_elem?, drop, leb, if◌then◌else◌,
}
use logic.Bitstream.Defs.{Bitstream}
use logic.Axi4.Stream.TdataByte.{TdataByte, of_both}
use logic.Axi4.Stream.BusIf.{BusIf, Widths}
use logic.Axi4.Stream.Monitor.{lane_bytes, tdata_byte_type}
use logic.Axi4.Stream.RxDriver.{RxItem, user_value}
use logic.Axi4.Stream.RxDriver.Lanes.{lane_bytes-suc, padding, padded}

-- One handshake.
pub record Beat : Type 0 where
  pub bytes : List TdataByte
  pub last : Bool
  pub user : Bitstream
  pub tid : Bitstream
  pub tdest : Bitstream

abbrev pub beat_of : ℕ → BusIf → Beat
beat_of bus_size vif = record {
  bytes = lane_bytes vif 0 bus_size;
  last = vif.tlast;
  user = vif.tuser;
  tid = vif.tid;
  tdest = vif.tdest;
}

-- The handshakes among what the bus showed at the edges.
abbrev pub accepted : ℕ → List BusIf → List Beat
accepted bus_size [] = []
accepted bus_size (vif ∷ seen) =
    if vif.tvalid && vif.tready
    then beat_of bus_size vif ∷ accepted bus_size seen
    else accepted bus_size seen

-- The lanes determine the bytes.
pub lane_bytes_ext :
    (v w : BusIf)
    → v.tkeep ≡ w.tkeep
    → v.tstrb ≡ w.tstrb
    → v.tdata ≡ w.tdata
    → (left i : ℕ) → lane_bytes v i left ≡ lane_bytes w i left
lane_bytes_ext v w k s d zero i = unfold lane_bytes in refl
lane_bytes_ext v w k s d (suc left) i =
    lane_bytes-suc v i left
    ∙ ap₂ ◌∷◌
        (ap₂ of_both (ap (λ f. f i) d) (ap₂ tdata_byte_type (ap (λ f. f i) k) (ap (λ f. f i) s)))
        (lane_bytes_ext v w k s d left (suc i))
    ∙ sym (lane_bytes-suc w i left)

pub padded-add :
    (m n : ℕ) (xs : List TdataByte) → padded (m + n) xs ≡ padded m xs ++ padded n (drop m xs)
padded-add zero n xs = ap (λ t. padded t xs) (omega arith)
padded-add (suc m) n [] =
    ap (λ t. padded t []) (shift m n)
    ∙ ap (λ r. padding ∷ r) (padded-add m n [] ∙ ap (λ r. padded m [] ++ padded n r) (drop-nil m))
  where
    shift : (m n : ℕ) → suc m + n ≡ suc (m + n)
    shift m n = omega arith

    drop-nil : (m : ℕ) → drop {A = TdataByte} m [] ≡ []
    drop-nil zero = refl
    drop-nil (suc m) = refl
padded-add (suc m) n (x ∷ xs) =
    ap (λ t. padded t (x ∷ xs)) (shift m n) ∙ ap (λ r. x ∷ r) (padded-add m n xs)
  where
    shift : (m n : ℕ) → suc m + n ≡ suc (m + n)
    shift m n = omega arith

pub drop-min {ℓ} : {A : Type ℓ} (m : ℕ) (xs : List A) → drop (min m (length xs)) xs ≡ drop m xs
drop-min zero xs = ap (λ t. drop t xs) (none_left (length xs))
  where
    none_left : (n : ℕ) → min 0 n ≡ 0
    none_left n = omega arith
drop-min {A = A} (suc m) [] = ap (λ t. drop {A = A} t []) (none_left (suc m))
  where
    none_left : (n : ℕ) → min n 0 ≡ 0
    none_left n = omega arith
drop-min (suc m) (x ∷ xs) = ap (λ t. drop t (x ∷ xs)) (shift m (length xs)) ∙ drop-min m xs
  where
    shift : (m n : ℕ) → min (suc m) (suc n) ≡ suc (min m n)
    shift m n = omega arith

module _ (widths : Widths) (item : RxItem) (bus_size : ℕ) where
  -- Transfer number `k` of an item, counted from 0: its bytes are the item's, filled up with null
  -- bytes, and it is the last when no byte is left.
  abbrev pub nth_beat : ℕ → Beat
  nth_beat k = record {
    bytes = padded bus_size (drop (k * bus_size) item.tdata);
    last = leb (length item.tdata) (suc k * bus_size);
    user = user_value widths (get_elem? item.tuser k);
    tid = widths.fit_tid item.tid;
    tdest = widths.fit_tdest item.tdest;
  }

  -- The first `n` transfers of an item.
  abbrev pub first_beats : ℕ → List Beat
  first_beats zero = []
  first_beats (suc n) = first_beats n ++ nth_beat n ∷ []
