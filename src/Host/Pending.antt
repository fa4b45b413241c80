-- ===== src/Host/Pending.antt =====
-- `PendingOps` of wasmtime-impl/src/peer_connection.rs and the tasks of `create_data_channel` that it
-- counts. Each atomic access and each call of the notifier is a step. `Notify` of tokio is the
-- parameter of the signaling server's model; `enable` makes a future that counts from there.
pub mod Settled
use wasi_webrtc_datachannels.Base.{
  ℕ, zero, suc, ◌+◌, ◌-◌, ◌%◌, ◌^◌, Bool, true, false, List, [], ◌∷◌, length, ◌==◌, nat_eq,
  if◌then◌else◌,
}
use wasi_webrtc_datachannels.Signaling.LongPoll.{Notify, since}

-- `live` tasks have begun and not ended; `ending` ones are between the two steps of `end`. `calls` are
-- those of `notify_waiters`.
pub record PendingOps : Type 0 where
  pub count : ℕ
  pub calls : List ℕ
  pub live : ℕ
  pub ending : ℕ

unfoldable pub default : PendingOps
default = record { count = 0; calls = []; live = 0; ending = 0 }

unfoldable pub begin : PendingOps → PendingOps
begin p = record p { count = (p.count + 1) % 2 ^ 64; live = suc p.live }

count_down : PendingOps → ℕ → PendingOps
count_down p zero = record p { live = zero }
count_down p (suc n) = record p {
  count = (p.count + (2 ^ 64 - 1)) % 2 ^ 64;
  live = n;
  ending = suc p.ending;
}

-- The first step of `end`, which only a live task takes.
unfoldable pub end_count : PendingOps → PendingOps
unfolding count_down
end_count p = count_down p p.live

wake_waiters : PendingOps → ℕ → PendingOps
wake_waiters p zero = record p { ending = zero }
wake_waiters p (suc n) = record p { calls = 0 ∷ p.calls; ending = n }

-- The second.
unfoldable pub end_notify : PendingOps → PendingOps
unfolding wake_waiters
end_notify p = wake_waiters p p.ending

-- A waiter in `settled`: before its future is enabled, before the count is read, at the await, or
-- back.
pub data Waiter : Type 0 where
  entered : Waiter
  enabled : ℕ → Waiter
  parked : ℕ → Waiter
  returned : Waiter

module _ (notify : Notify) where
  unfoldable pub settled : PendingOps → Waiter → Waiter
  settled p entered = enabled (length p.calls)
  settled p (enabled mark) = if p.count == 0 then returned else parked mark
  settled p (parked mark) = if notify.woken 0 (since mark p.calls) then entered else parked mark
  settled p returned = returned

pub data Act : Type 0 where
  begins : Act
  counts_down : Act
  notifies : Act
  polls : Act

module _ (notify : Notify) where
  unfoldable pub act : PendingOps × Waiter → Act → PendingOps × Waiter
  act (p, w) begins = (begin p, w)
  act (p, w) counts_down = (end_count p, w)
  act (p, w) notifies = (end_notify p, w)
  act (p, w) polls = (p, settled notify p w)

  unfoldable pub run : PendingOps × Waiter → List Act → PendingOps × Waiter
  run s [] = s
  run s (a ∷ acts) = run (act s a) acts
