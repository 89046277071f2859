-- ===== src/Logind.antt =====
-- crates/tb-daemon/src/logind.rs: login sessions, as systemd-logind reports them.
use time_bandits.Base.{ℕ, Bool, ◌&&◌, not, List, Text, codes, ◌=t◌, keep}

pub record SessionInfo : Type 0 where
  pub id : Text
  pub uid : ℕ
  pub user : Text
  pub active : Bool
  pub locked : Bool
  pub class : Text
  pub kind : Text
  pub remote : Bool

unfoldable pub is_creditable_desktop : SessionInfo → Bool
is_creditable_desktop s =
    s.class =t codes "user" && s.active && not s.locked && not (s.kind =t codes "tty")

unfoldable pub is_lockable : SessionInfo → Bool
is_lockable s = s.class =t codes "user" && not s.remote

-- `by_user` and a look-up in its map: the sessions of one user, in their order.
unfoldable pub sessions_of : List SessionInfo → Text → List SessionInfo
sessions_of sessions subject = keep (λ (s : SessionInfo). s.user =t subject) sessions
