-- ===== src/Axi4/Stream/TxDriver.antt =====
-- src/logic/axi4/stream/tx_driver.cpp: answers the transfers of a packet with given identifiers. The
-- loop is a recursion on what the bus shows at each rising edge of `aclk`; a written `tready` shows at
-- the next one. The random numbers are a parameter.
pub mod Turn
pub mod OnePacket
use logic.Base.{
  ℕ, zero, suc, ◌+◌, ◌-◌, Bool, true, false, not, ◌&&◌, ◌||◌, Option, none, some, List, [], ◌∷◌,
  if◌then◌else◌, ◌==◌, ◌>>=◌,
}
use logic.Bitstream.Defs.{Bitstream, is_equal}
pub use logic.Axi4.Stream.Items.{TxItem}
use logic.Axi4.Stream.Packet.{◌and_then◌}
use logic.Axi4.Stream.BusIf.{BusIf}

-- The local variables of `transfer`, what `tready` shows, how many random numbers were drawn, and
-- whether the time-out was reported.
pub record TxState : Type 0 where
  pub is_running : Bool
  pub idle : ℕ
  pub timeout : ℕ
  pub tready : Bool
  pub draws : ℕ
  pub timed_out : Bool

module _ (random_idle : ℕ → ℕ) (item : TxItem) where
  -- A transfer of the item's packet is on the bus.
  unfoldable pub same_ids : BusIf → Option Bool
  same_ids vif = is_equal item.tid vif.tid and_then is_equal item.tdest vif.tdest

  unfoldable pub accept : BusIf → TxState → Option TxState
  accept vif s = do
    accepted ← some (s.is_running && s.tready && vif.tvalid) and_then same_ids vif
    some (if accepted then record s { timeout = item.timeout; is_running = not vif.tlast } else s)

  unfoldable pub count_down : TxState → TxState
  count_down s =
      if s.is_running && not (item.timeout == 0)
      then (if s.timeout == 0
          then record s { idle = 0; is_running = false; timed_out = true }
          else record s { timeout = s.timeout - 1 })
      else s

  unfoldable pub drive_tready : TxState → TxState
  drive_tready s =
      if s.idle == 0
      then record s {
        idle = if s.is_running then random_idle s.draws else 0;
        draws = if s.is_running then suc s.draws else s.draws;
        tready = true;
      }
      else record s { idle = s.idle - 1; tready = false }

  -- One turn of the loop, before `aclk_posedge`.
  unfoldable pub tx_turn : BusIf → TxState → Option TxState
  tx_turn vif s = do s' ← accept vif s; some (drive_tready (count_down s'))

  -- The start of `transfer`; its `set_tready(true)` is overwritten before it shows.
  unfoldable pub tx_start : Bool → ℕ → TxState
  tx_start tready draws = record {
    is_running = true;
    idle = random_idle draws;
    timeout = item.timeout;
    tready = tready;
    draws = draws + 1;
    timed_out = false;
  }

  -- `transfer` over the edges that follow: the state it leaves, whether it has returned, and what the
  -- bus showed at each edge that it looked at.
  unfoldable pub tx_transfer : List BusIf → TxState → Option (TxState × Bool × List BusIf)
  tx_transfer [] s = some (s, false, [])
  tx_transfer (vif ∷ vifs) s =
      let rest = (do
        s' ← tx_turn vif s
        result ← tx_transfer vifs s'
        some (result.0, result.1, record vif { tready = s.tready } ∷ result.2)) in
      if (s.is_running || not (s.idle == 0)) && vif.areset_n
      then rest
      else some (record s { tready = false }, true, [])
