-- ===== src/Irc/Statistic.antt =====
-- irc/IRCStatistic.h: the counters of a session. `unsigned int` wraps at 2^32, `unsigned long long` at
-- 2^64.
use twitch_chat_worker.Base.{ℕ, ◌+◌, ◌%◌, ◌^◌, ◌≡◌, ltb, if◌then◌else◌, add32, arith}

abbrev add64 : ℕ → ℕ → ℕ
add64 a b = (a + b) % 2 ^ 64

-- The nested structs, flattened.
pub record Statistic : Type 0 where
  pub success : ℕ
  pub failed : ℕ
  pub loggedin : ℕ
  pub in_bytes : ℕ
  pub in_count : ℕ
  pub out_bytes : ℕ
  pub join : ℕ
  pub part : ℕ
  pub privmsg : ℕ
  pub out_count : ℕ
  pub rtt : ℕ

abbrev pub empty : Statistic
empty = record {
  success = 0;
  failed = 0;
  loggedin = 0;
  in_bytes = 0;
  in_count = 0;
  out_bytes = 0;
  join = 0;
  part = 0;
  privmsg = 0;
  out_count = 0;
  rtt = 0;
}

-- `operator+`, which also serves as `operator+=`
unfoldable pub add : Statistic → Statistic → Statistic
add a b = record {
  success = add32 a.success b.success;
  failed = add32 a.failed b.failed;
  loggedin = add32 a.loggedin b.loggedin;
  in_bytes = add64 a.in_bytes b.in_bytes;
  in_count = add32 a.in_count b.in_count;
  out_bytes = add64 a.out_bytes b.out_bytes;
  join = add32 a.join b.join;
  part = add32 a.part b.part;
  privmsg = add32 a.privmsg b.privmsg;
  out_count = add32 a.out_count b.out_count;
  rtt = if ltb 0 b.rtt then b.rtt else a.rtt;
}

-- Sums of counters do not depend on how the reports are grouped, and the round trip time is that of
-- the last report that has one.
pub add_assoc : (a b c : Statistic) → add (add a b) c ≡ add a (add b c)
unfolding add
add_assoc a b c = λ i. record {
  success = counts a.success b.success c.success i;
  failed = counts a.failed b.failed c.failed i;
  loggedin = counts a.loggedin b.loggedin c.loggedin i;
  in_bytes = bytes a.in_bytes b.in_bytes c.in_bytes i;
  in_count = counts a.in_count b.in_count c.in_count i;
  out_bytes = bytes a.out_bytes b.out_bytes c.out_bytes i;
  join = counts a.join b.join c.join i;
  part = counts a.part b.part c.part i;
  privmsg = counts a.privmsg b.privmsg c.privmsg i;
  out_count = counts a.out_count b.out_count c.out_count i;
  rtt = last a.rtt b.rtt c.rtt i;
}
  where
    counts : (x y z : ℕ) → add32 (add32 x y) z ≡ add32 x (add32 y z)
    counts x y z = omega arith

    bytes : (x y z : ℕ) → add64 (add64 x y) z ≡ add64 x (add64 y z)
    bytes x y z = omega arith

    last :
        (x y z : ℕ)
        → (if ltb 0 z then z else (if ltb 0 y then y else x))
          ≡ (if ltb 0 (if ltb 0 z then z else y) then (if ltb 0 z then z else y) else x)
    last x y z = ground arith
