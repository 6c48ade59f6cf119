-- ===== src/Core/State/Precedence.antt =====
-- Terminal precedence as an order of the guards.
use msgriver.Common.{◌≡◌, ◌⊎◌, ◌↔◌, true, arith, ℕ, ◌≤◌}
use msgriver.Core.Error.{ok, IsOk}
use msgriver.Core.State.{
  TerminalGuards, TerminalWinner, terminal_precedence, LateAckRow, LateAckResolution,
  resolve_late_ack,
}

-- The guard that lets a winner stand, and its place in the order.
abbrev pub Holds : TerminalGuards → TerminalWinner → Type 0
Holds g TerminalWinner.provider_accepted =
    (g.known_provider_acceptance ≡ true) ⊎ (g.late_verifiable_ack ≡ true)
Holds g TerminalWinner.cancelled = g.cancel_committed ≡ true
Holds g TerminalWinner.expired = g.expiry_eligible ≡ true
Holds g TerminalWinner.failed = g.attempt_exhausted ≡ true
Holds g TerminalWinner.no_terminal = Unit {0}

abbrev pub rank : TerminalWinner → ℕ
rank TerminalWinner.provider_accepted = 0
rank TerminalWinner.cancelled = 1
rank TerminalWinner.expired = 2
rank TerminalWinner.failed = 3
rank TerminalWinner.no_terminal = 4

-- The winner's guard holds, and no winner that comes before it has its guard.
abbrev pub IsFirst : TerminalGuards → TerminalWinner → Type 0
IsFirst g w = Holds g w × ((v : TerminalWinner) → Holds g v → rank w ≤ rank v)

least :
    (g : TerminalGuards) (w v : TerminalWinner)
    → terminal_precedence g ≡ ok w
    → Holds g v
    → rank w ≤ rank v
unfolding terminal_precedence
least g w TerminalWinner.provider_accepted e h = ground arith
least g w _ e h = ground arith

winner-Holds : (g : TerminalGuards) (w : TerminalWinner) → terminal_precedence g ≡ ok w → Holds g w
unfolding terminal_precedence
winner-Holds g TerminalWinner.provider_accepted e = ground arith
winner-Holds g _ e = ground arith

first_wins : (g : TerminalGuards) (w : TerminalWinner) → IsFirst g w → terminal_precedence g ≡ ok w
unfolding terminal_precedence
first_wins g TerminalWinner.provider_accepted f =
    ground (arith, f.1 TerminalWinner.provider_accepted)
first_wins g _ f = ground (
  arith,
  f.1 TerminalWinner.provider_accepted,
  f.1 TerminalWinner.cancelled,
  f.1 TerminalWinner.expired,
  f.1 TerminalWinner.failed,
)

-- Precedence is total, and names the first winner whose guard holds, in the order provider
-- acceptance or late acknowledgement, cancel, expiry, exhaustion, none.
pub terminal_precedence-IsFirst :
    (g : TerminalGuards)
    → IsOk (terminal_precedence g)
      × ((w : TerminalWinner) → (terminal_precedence g ≡ ok w) ↔ IsFirst g w)
unfolding terminal_precedence
terminal_precedence-IsFirst g =
    (ground arith, λ w. (λ e. (winner-Holds g w e, λ v. least g w v e), first_wins g w))

-- A late verifiable acknowledgement promotes any prior state, keeps the attempt history, and names
-- the winner that total precedence names whatever other guards hold.
pub resolve_late_ack_agrees :
    (row : LateAckRow) (res : LateAckResolution) (g : TerminalGuards)
    → resolve_late_ack row ≡ ok res
    → g.late_verifiable_ack ≡ row.late_verifiable_ack
    → (terminal_precedence g ≡ ok res.winner)
      × (res.attempt_history_digest ≡ row.attempt_history_digest)
unfolding resolve_late_ack terminal_precedence
resolve_late_ack_agrees row res g h e = ground arith
