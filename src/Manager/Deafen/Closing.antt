-- ===== src/Manager/Deafen/Closing.antt =====
-- internal/manager/speaker_deafen.go: what `Close` leaves behind.

use go_discord_caller.Base.{
  nat_eq, string_eq, pair_eq, nat_zero, bool_zero, list_zero, string_zero, ◌≡◌, true, [],
}
use go_discord_caller.Manager.Deafen.{restore}
use go_discord_caller.Manager.Deafen.Session.{Session, undo}

-- After a close and its wait, nothing is under way and nothing starts.
abbrev Quiet : Session → Type 0
Quiet s = (s.controller.closed ≡ true) × (s.launching ≡ []) × (s.applying ≡ [])

-- A session whose `Close` sends the undeafens, all of which Discord accepts.
abbrev pub undone : Session → Session
undone s = record s { flags = undo (λ k. true) (restore s.controller.members) s.flags }
