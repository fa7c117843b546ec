-- ===== src/Auth/Manager/Queue.antt =====
-- authorization/manager.py: the addresses in the queue, and the active one.
pub use rclone_kit.Base.Removal.{
  Distinct, by_address, eq_self, eq_swap, member-snoc, member-remove-other, member-remove,
  Distinct-remove, Distinct-snoc, length-remove,
}
use rclone_kit.Base.{ℕ, ◌≡◌, sym, ◌∙◌, true, Option, none, some, ==_iff}
use rclone_kit.Auth.Manager.{is_at}

-- The active session is one.
pub is_at_unique : (o : Option ℕ) (a b : ℕ) → is_at o a ≡ true → is_at o b ≡ true → a ≡ b
is_at_unique none a b h k = cc
is_at_unique (some c) a b h k = (==_iff a c).0 h ∙ sym ((==_iff b c).0 k)
