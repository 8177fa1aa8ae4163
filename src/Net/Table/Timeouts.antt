-- ===== src/Net/Table/Timeouts.antt =====
-- What `ScanTimeouts` of net/ConnectionTable.cpp flags, and the budgets that it is called with.
use stalker_mp.Base.{
  ℕ, ◌+◌, ◌*◌, ◌≤◌, ◌<◌, ◌≡◌, refl, ◌≢◌, ◌⊎◌, ◌↔◌, inl, inr, Bool, true, false, List, [], ◌∷◌,
  Option, sym, subst, none, some, map, keep, has, arith, Bool-cases,
}
use mathlib.Core.Option.{some-injective}
use stalker_mp.Keyed.Laws.{Above, lookup, Above-mono}
use stalker_mp.Base.Division.{round_up, round_up_least}
use stalker_mp.Net.Types.{Connection, ConnectionState, HandshakeState}
use stalker_mp.Net.Table.{
  ConnectionTable, connection_key, scan_timeouts, is_timed_out, ticks_from_ms,
}
use stalker_mp.Net.Table.Laws.{IsValid, connection}

-- A connection times out exactly when its handshake is unfinished and was begun more than the
-- handshake budget ago, or when it is connected and was last heard more than its budget ago.
pub is_timed_out_iff :
    (now hb cb : ℕ) (c : Connection)
    → (is_timed_out now hb cb c ≡ true) ↔ (
        (c.handshake ≢ HandshakeState.established) × (c.created_tick + hb < now)
        ⊎ (c.handshake ≡ HandshakeState.established)
          × (c.state ≡ ConnectionState.connected)
          × (c.last_recv_tick + cb < now))
unfolding is_timed_out
is_timed_out_iff now hb cb c = ((λ h. ground arith), (λ h. ground arith))

keep-below :
    (p v : ℕ) (f : Connection → Bool) (xs : List Connection)
    → Above connection_key p xs
    → v ≤ p
    → has (map connection_key (keep f xs)) v ≡ false
keep-below p v f [] a h = refl
keep-below p v f (x ∷ xs) a h = ground (arith, keep-below (connection_key x) v f xs a.1)

has-keep :
    (p v : ℕ) (f : Connection → Bool) (xs : List Connection)
    → Above connection_key p xs
    → has (map connection_key (keep f xs)) v
      ≡ elim (lookup connection_key xs v) [ none ↦ false | some c ↦ f c ]
unfolding lookup
has-keep p v f [] a = refl
has-keep p v f (x ∷ xs) a =
    ground (arith, has-keep (connection_key x) v f xs a.1, keep-below (connection_key x) v f xs a.1)

keep-Above :
    (p : ℕ) (f : Connection → Bool) (xs : List Connection)
    → Above connection_key p xs
    → Above connection_key p (keep f xs)
keep-Above p f [] a = tt
keep-Above p f (x ∷ xs) a = elim (Bool-cases (f x)) [
  | inl e ↦ rw e (a.0, keep-Above (connection_key x) f xs a.1)
  | inr e ↦ rw e (
      Above-mono connection_key p (connection_key x) (keep f xs) (omega arith)
        (keep-Above (connection_key x) f xs a.1))
]

Above-keys :
    (p : ℕ) (xs : List Connection)
    → Above connection_key p xs
    → Above (λ n. n) p (map connection_key xs)
Above-keys p [] a = tt
Above-keys p (x ∷ xs) a = (a.0, Above-keys (connection_key x) xs a.1)

-- What it is to be timed out at a tick, with a budget for the handshake and one for the connection.
abbrev pub TimedOut : ℕ → ℕ → ℕ → Connection → Type 0
TimedOut now hb cb c =
    (c.handshake ≢ HandshakeState.established) × (c.created_tick + hb < now)
    ⊎ (c.handshake ≡ HandshakeState.established)
      × (c.state ≡ ConnectionState.connected)
      × (c.last_recv_tick + cb < now)

flagged_iff :
    (now hb cb : ℕ) (o : Option Connection)
    → (elim o [ none ↦ false | some c ↦ is_timed_out now hb cb c ] ≡ true)
      ↔ ((c : Connection) × (o ≡ some c) × TimedOut now hb cb c)
flagged_iff now hb cb none = ((λ h. ground arith), (λ (c, e, t). ground (arith, e)))
flagged_iff now hb cb (some c) = (
  (λ h. (c, refl, (is_timed_out_iff now hb cb c).0 h)),
  (λ (d, e, t).
      (is_timed_out_iff now hb cb c).1 (subst (TimedOut now hb cb) (sym (some-injective _ _ e)) t)),
)

-- In a valid table the scan flags exactly the ids of live connections whose handshake is unfinished and was
-- begun more than the handshake budget ago, or which are connected and were last heard more than the
-- connection budget ago; each once, in ascending order.
pub scan_timeouts_lem :
    (t : ConnectionTable) (now hb cb : ℕ)
    → IsValid t
    → ((id : ℕ)
        → (has (scan_timeouts t now hb cb) id ≡ true)
          ↔ ((c : Connection) × (connection t id ≡ some c) × TimedOut now hb cb c))
      × Above (λ n. n) 0 (scan_timeouts t now hb cb)
unfolding scan_timeouts connection
scan_timeouts_lem t now hb cb v = (
  (λ id.
      rw (has-keep 0 id (is_timed_out now hb cb) t.entries v.ascending)
        (flagged_iff now hb cb (lookup connection_key t.entries id))),
  Above-keys 0 (keep (is_timed_out now hb cb) t.entries)
      (keep-Above 0 (is_timed_out now hb cb) t.entries v.ascending),
)

-- For a positive tick length the budget in ticks is the least positive number of ticks that covers the time.
pub ticks_from_ms_lem :
    (ms period : ℕ)
    → 0 < period
    → let ticks = ticks_from_ms ms period in
      (0 < ticks) × (ms ≤ ticks * period) × ((n : ℕ) → 0 < n → ms ≤ n * period → ticks ≤ n)
unfolding ticks_from_ms
ticks_from_ms_lem ms period h = (
  ground arith,
  ground (arith, round_up ms period h),
  λ n hn hm. ground (arith, round_up_least ms period n h hm),
)
