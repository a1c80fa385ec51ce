-- ===== src/Middleware/PerIpConnectionLimiter.antt =====
-- `PerIpConnectionLimiter` (include/middleware/PerIpConnectionLimiter.h,
-- src/middleware/PerIpConnectionLimiter.cpp). An operation runs with the lock held. A count is a
-- natural number: the code's `int` falls below 0 only in an entry that it then erases.
pub mod Slots
use c_http_1_1_server.Base.{
  ℕ, suc, ◌+◌, ◌-◌, Bool, true, false, List, [], Option, none, some, if◌then◌else◌, leb, Bytes,
}
use c_http_1_1_server.Base.StringMap.{lookup, insert, erase}

pub record PerIpConnectionLimiter : Type 0 where
  pub max_per_ip : ℕ
  pub counts : List (Bytes × ℕ)

abbrev pub limiter : ℕ → PerIpConnectionLimiter
limiter max = record { max_per_ip = max; counts = [] }

unfoldable pub count_or_zero : Option ℕ → ℕ
count_or_zero none = 0
count_or_zero (some n) = n

-- The slots that an address holds.
unfoldable pub held : Bytes → PerIpConnectionLimiter → ℕ
unfolding count_or_zero
held ip l = count_or_zero (lookup ip l.counts)

-- `counts_[ip]` makes a missing entry, with the count 0.
unfoldable pub try_acquire : Bytes → PerIpConnectionLimiter → Bool × PerIpConnectionLimiter
try_acquire ip l =
    let count = held ip l in
    if leb l.max_per_ip count
    then (false, record l { counts = insert ip count l.counts })
    else (true, record l { counts = insert ip (count + 1) l.counts })

-- `release` on the entry that `find` gives.
unfoldable pub release_entry : Bytes → PerIpConnectionLimiter → Option ℕ → PerIpConnectionLimiter
release_entry ip l none = l
release_entry ip l (some n) =
    if leb (n - 1) 0
    then record l { counts = erase ip l.counts }
    else record l { counts = insert ip (n - 1) l.counts }

unfoldable pub release : Bytes → PerIpConnectionLimiter → PerIpConnectionLimiter
unfolding release_entry
release ip l = release_entry ip l (lookup ip l.counts)
