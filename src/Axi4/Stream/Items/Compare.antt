-- ===== src/Axi4/Stream/Items/Compare.antt =====
-- Two items of one kind compare equal exactly when they ask for the same.
use logic.Base.{
  ℕ, ◌≡◌, refl, ap, Bool, true, Option, some, List, ◌↔◌, arith, All, ◌==◌, ==_iff, map,
}
use logic.Bitstream.Valid.{IsValid}
use logic.Range.{Range, range_tests}
use logic.Range
use logic.Axi4.Stream.TdataByte.{TdataByte}
use logic.Axi4.Stream.Packet.{◌and_then◌, bytes_equal}
use logic.Axi4.Stream.Packet.Compare.{
  Decides, both, pair_iff, stream_Decides, streams_Decides, bytes_equal_iff, value_of,
}
use logic.Axi4.Stream.Items.{
  ItemType, RxItem, TxItem, ResetItem, item_type_eq, compare_rx, compare_tx, compare_reset,
}

-- What each kind of item asks for, with streams as numbers.
abbrev pub RxRequest : Type 0
RxRequest = ItemType × (Range × (ℕ × (ℕ × (ℕ × (List ℕ × List TdataByte)))))

abbrev pub rx_request : RxItem → RxRequest
rx_request item = (
  item.type,
  (
    item.idle,
    (
      item.timeout,
      (value_of item.tid, (value_of item.tdest, (map value_of item.tuser, item.tdata))),
    ),
  ),
)

abbrev pub TxRequest : Type 0
TxRequest = Range × (ℕ × (ℕ × ℕ))

abbrev pub tx_request : TxItem → TxRequest
tx_request item = (item.idle, (item.timeout, (value_of item.tid, value_of item.tdest)))

pub record HasValidStreams (item : RxItem) : Type 0 where
  pub tid_valid : IsValid item.tid
  pub tdest_valid : IsValid item.tdest
  pub tuser_valid : All IsValid item.tuser

type_Decides : (s t : ItemType) → Decides (some (item_type_eq s t)) s t
type_Decides s t = record { answer = item_type_eq s t; defined = refl; decides = iff s t }
  where
    iff : (s t : ItemType) → (item_type_eq s t ≡ true) ↔ (s ≡ t)
    iff s t = unfold item_type_eq in ground arith

range_Decides : (s t : Range) → Decides (some (Range.is_equal s t)) s t
range_Decides s t = record {
  answer = Range.is_equal s t;
  defined = refl;
  decides = (range_tests s t).0;
}

number_Decides : (s t : ℕ) → Decides (some (s == t)) s t
number_Decides s t = record { answer = s == t; defined = refl; decides = ==_iff s t }

bytes_Decides : (s t : List TdataByte) → Decides (some (bytes_equal s t)) s t
bytes_Decides s t = record {
  answer = bytes_equal s t;
  defined = refl;
  decides = bytes_equal_iff s t;
}

-- A test in front of others, for pairs.
conj :
    {A B : Type 0} (a b : Option Bool) {x y : A} {u v : B}
    → Decides a x y
    → Decides b u v
    → Decides {A = A × B} (a and_then b) (x, u) (y, v)
conj a b {x} {y} {u} {v} d e = both a b d e (pair_iff x y u v)

-- The comparison of two reset items is true exactly when they are the same.
compare_reset-Decides : (p q : ResetItem) → Decides (compare_reset p (some q)) p q
unfolding compare_reset
compare_reset-Decides p q =
    both _ _ (number_Decides p.duration q.duration) (number_Decides p.idle q.idle) (
      λ e. ground (arith, e.0, e.1),
      λ e. (ap (λ (i : ResetItem). i.duration) e, ap (λ (i : ResetItem). i.idle) e),
    )

-- The comparison of two transmitter items whose identifiers are valid streams is defined, and it is
-- true exactly when idle range, time-out and the numbers of the identifiers are the same.
compare_tx-Decides :
    (p q : TxItem)
    → IsValid p.tid
    → IsValid p.tdest
    → IsValid q.tid
    → IsValid q.tdest
    → Decides (compare_tx p (some q)) (tx_request p) (tx_request q)
unfolding compare_tx
compare_tx-Decides p q v w v' w' = conj _ _ (range_Decides p.idle q.idle) (
    conj _ _ (number_Decides p.timeout q.timeout)
      (conj _ _ (stream_Decides p.tid q.tid v v') (stream_Decides p.tdest q.tdest w w')))

-- The comparison of two receiver items whose streams are valid is defined, and it is true exactly
-- when the items ask for the same: type, idle range, time-out, the numbers of the identifiers and
-- `tuser` words, and the bytes.
pub compare_rx-Decides :
    (p q : RxItem)
    → HasValidStreams p
    → HasValidStreams q
    → Decides (compare_rx p (some q)) (rx_request p) (rx_request q)
unfolding compare_rx
compare_rx-Decides p q v w = conj _ _ (type_Decides p.type q.type) (
    conj _ _ (range_Decides p.idle q.idle) (
      conj _ _ (number_Decides p.timeout q.timeout) (
        conj _ _ (stream_Decides p.tid q.tid v.tid_valid w.tid_valid) (
          conj _ _ (stream_Decides p.tdest q.tdest v.tdest_valid w.tdest_valid) (
            conj _ _ (streams_Decides p.tuser q.tuser v.tuser_valid w.tuser_valid)
              (bytes_Decides p.tdata q.tdata))))))
