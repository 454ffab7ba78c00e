-- ===== src/Axi4/Stream/Scoreboard.antt =====
-- src/logic/axi4/stream/scoreboard.cpp: takes the received and the transmitted packets from two queues,
-- one of each at a time, and remembers whether two of them differed. `uvm_object::compare` is a
-- parameter. The wait on an empty queue is the end of its list.
use logic.Base.{
  ◌≡◌, refl, sym, ap, ap₂, ◌∙◌, Bool, true, false, not, Option, some, List, [], ◌∷◌, ◌↔◌, ◌>>=◌,
  if◌then◌else◌, take, length, map, All, arith, Bool-cases, inl, inr,
}
use mathlib.Core.Bool.{true≢false}
use logic.Axi4.Stream.Packet.{Packet, do_compare}
use logic.Axi4.Stream.Packet.Compare.{IsWellFormed, content, do_compare-Decides}

-- What the scoreboard knows: `m_error`.
pub record Scoreboard : Type 0 where
  pub m_error : Bool

-- `passed()` and `failed()`
unfoldable pub passed : Scoreboard → Bool
passed s = not s.m_error

unfoldable pub failed : Scoreboard → Bool
failed s = s.m_error

error_failed : failed (record { m_error = true }) ≡ true
unfolding failed
error_failed = refl

module _ (compare : Packet → Packet → Option Bool) where
  -- One round of `run_phase`.
  unfoldable pub check : Packet → Packet → Scoreboard → Option Scoreboard
  check rx tx s = do same ← compare rx tx; some (if same then s else record { m_error = true })

  unfoldable pub run_checks : List Packet → List Packet → Scoreboard → Option Scoreboard
  run_checks [] txs s = some s
  run_checks (rx ∷ rxs) [] s = some s
  run_checks (rx ∷ rxs) (tx ∷ txs) s = do s' ← check rx tx s; run_checks rxs txs s'

  -- The contents of the packets that were compared.
  abbrev Same : List Packet → List Packet → Type 0
  Same rxs txs = map content (take (length txs) rxs) ≡ map content (take (length rxs) txs)

  checked :
      (rx tx : Packet) (s : Scoreboard) (same : Bool)
      → compare rx tx ≡ some same
      → (rxs txs : List Packet)
      → run_checks (rx ∷ rxs) (tx ∷ txs) s
        ≡ run_checks rxs txs (if same then s else record { m_error = true })
  unfolding run_checks check
  checked rx tx s same e rxs txs = rw e refl

  nothing : (txs : List Packet) → map content (take (length txs) []) ≡ []
  nothing [] = refl
  nothing (tx ∷ txs) = refl

  heads :
      (rx tx : Packet) (rxs txs : List Packet)
      → Same (rx ∷ rxs) (tx ∷ txs) ↔ (content rx ≡ content tx) × Same rxs txs
  heads rx tx rxs txs = (λ h. ground (arith, h), λ h. ap₂ ◌∷◌ h.0 h.1)

  module _ (compares : (p q : Packet) → compare p q ≡ do_compare p (some q)) where
    -- When `compare` of UVM calls `do_compare` and all packets hold valid streams, the
    -- scoreboard's run is defined, and it reports no error exactly when it had reported none
    -- before and the received and the transmitted packets that were paired have the same
    -- contents.
    pub scoreboard_error :
        (rxs txs : List Packet) (s : Scoreboard)
        → All IsWellFormed rxs
        → All IsWellFormed txs
        → (last : Scoreboard) × (run_checks rxs txs s ≡ some last)
          × ((failed last ≡ false) ↔ (failed s ≡ false) × Same rxs txs)
    scoreboard_error [] txs s v w =
        unfold run_checks in (s, refl, (λ h. (h, nothing txs), λ h. h.0))
    scoreboard_error (rx ∷ rxs) [] s v w =
        unfold run_checks in (s, refl, (λ h. (h, refl), λ h. h.0))
    scoreboard_error (rx ∷ rxs) (tx ∷ txs) s v w =
        let d = do_compare-Decides rx tx v.0 w.0 in
        let answered = compares rx tx ∙ d.defined in
        elim (Bool-cases d.answer) [
          | inl alike_test ↦
              let (last, ran, agree) = scoreboard_error rxs txs s v.1 w.1 in
              let alike = d.decides.0 alike_test in
              (
                last,
                checked rx tx s true (answered ∙ ap some alike_test) rxs txs ∙ ran,
                (
                  λ h. ((agree.0 h).0, (heads rx tx rxs txs).1 (alike, (agree.0 h).1)),
                  λ h. agree.1 (h.0, ((heads rx tx rxs txs).0 h.1).1),
                ),
              )
          | inr apart ↦
              let (last, ran, agree) =
                scoreboard_error rxs txs (record { m_error = true }) v.1 w.1 in
              (
                last,
                checked rx tx s false (answered ∙ ap some apart) rxs txs ∙ ran,
                (
                  λ h. absurd (true≢false (sym error_failed ∙ (agree.0 h).0)),
                  λ h.
                      absurd
                        (true≢false (sym (d.decides.1 ((heads rx tx rxs txs).0 h.1).0) ∙ apart)),
                ),
              )
        ]
