-- ===== src/Gate.antt =====
-- `DnsConcurrency` of src/handler.rs: how many requests run at once. The semaphore of tokio is its
-- number of free permits: `try_acquire` takes one if there is one, and dropping a permit gives it back.
pub mod Laws
use rustblocker.Base.{ℕ, zero, suc, ◌+◌, ◌-◌, ◌%◌, ◌^◌, Bool, true, false, max}

pub record DnsConcurrency : Type 0 where
  pub permits : ℕ
  pub max_in_flight : ℕ
  pub rejected : ℕ

unfoldable pub new_concurrency : ℕ → DnsConcurrency
new_concurrency max_in_flight = record {
  permits = max max_in_flight 1;
  max_in_flight = max max_in_flight 1;
  rejected = 0;
}

unfoldable pub in_flight : DnsConcurrency → ℕ
in_flight c = c.max_in_flight - c.permits

-- Whether a permit was taken.
unfoldable pub try_acquire : DnsConcurrency → DnsConcurrency × Bool
try_acquire c = elim c.permits [
  | zero ↦ (c, false)
  | suc left ↦ (record c { permits = left }, true)
]

unfoldable pub record_reject : DnsConcurrency → DnsConcurrency
record_reject c = record c { rejected = (c.rejected + 1) % 2 ^ 64 }

unfoldable pub release : DnsConcurrency → DnsConcurrency
release c = record c { permits = suc c.permits }
