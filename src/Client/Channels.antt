-- ===== src/Client/Channels.antt =====
-- The channel session of the browser: the SDK's session on the in-memory rail, until it is closed.
use ckb_controller.Base.{
  ℕ, ◌-◌, Bool, false, true, Option, none, some, [], Result, ok, err, u32_mod,
}
use ckb_controller.Bytes.{Bytes}
use ckb_controller.Text.{split_once, parse_uint}
use ckb_controller.Text.Decimal.{decimal}
use ckb_controller.Host.{OutPoint}
use ckb_controller.Run.{Run, done, failed, ◌>>=◌}
use ckb_controller.Sdk.Account as Account
use ckb_controller.Channel.Rail as Rail
use ckb_controller.Channel.Rail.{Settlement, MockRail, MockRailError, mock_rail}
use ckb_controller.Channel.Session as Session
use ckb_controller.Client.{
  Libraries, Thrown, or_throw, arr32, hexout, script_from, session_closed, bad_outpoint, bad_index,
  open_failed, pay_failed, close_failed,
}

pub record ChannelTx : Type 0 where
  pub tx : Bytes
  pub message : Bytes
  pub outpoint : Bytes

pub record CloseResult : Type 0 where
  pub local : Bytes
  pub remote : Bytes
  pub settle : ChannelTx

pub record ChannelSession : Type 0 where
  pub inner : Option (Session.ChannelSession MockRail ℕ)

module _ (l : Libraries) where
  unfoldable pub channel_tx : Rail.ChannelTx → ChannelTx
  channel_tx ct = record {
    tx = hexout l (l.transaction_as_slice ct.tx);
    message = hexout l (Account.tx_message l.blake2b_256 l.raw_as_slice ct.tx);
    outpoint = hexout l (l.out_point_as_slice (Session.outpoint mock_rail l.tx_hash ct));
  }

  unfoldable pub parse_outpoint : Bytes → Run Thrown OutPoint
  parse_outpoint s = do
    (tx, idx) ← or_throw bad_outpoint (split_once b':' s)
    index ← or_throw bad_index (parse_uint u32_mod idx)
    hash ← arr32 l tx
    done (record { tx_hash = hash; index = index })

  unfoldable pub new : Bytes → Bytes → ℕ → Bytes → Bytes → Run Thrown ChannelSession
  new account_lock_script account_input account_capacity funding_lock_script header_dep = do
    account_lock ← script_from l account_lock_script
    funding_lock ← script_from l funding_lock_script
    input ← parse_outpoint account_input
    dep ← arr32 l header_dep
    let cfg : Rail.ChannelConfig = record {
      account_lock = account_lock;
      account_input = input;
      account_capacity = account_capacity;
      funding_lock = funding_lock;
      cell_deps = [];
      header_dep = dep;
    }
    done (record { inner = some (Session.new mock_rail l.tx_hash cfg (record { channels = [] })) })

  -- What `open` leaves after the SDK's answer.
  abbrev pub opened :
      Result (Session.ChannelError MockRailError) Rail.ChannelTx × Session.ChannelSession MockRail ℕ
      → Run Thrown ChannelTx × ChannelSession
  opened (ok ct, s) = (done (channel_tx ct), record { inner = some s })
  opened (err e, s) = (failed (open_failed e), record { inner = some s })

  -- `ChannelSession::open`
  unfoldable pub open_session : Bytes → ℕ → ChannelSession → Run Thrown ChannelTx × ChannelSession
  open_session peer budget c = elim (c.inner) [
    | none ↦ (failed session_closed, c)
    | some s ↦ opened (Session.open_session mock_rail l.tx_hash peer budget s)
  ]

  -- What `pay` leaves after the SDK's answer.
  abbrev pub paid :
      Result (Session.ChannelError MockRailError) (Unit {0}) × Session.ChannelSession MockRail ℕ
      → Run Thrown (Unit {0}) × ChannelSession
  paid (ok u, s) = (done tt, record { inner = some s })
  paid (err e, s) = (failed (pay_failed e), record { inner = some s })

  unfoldable pub pay : ℕ → ChannelSession → Run Thrown (Unit {0}) × ChannelSession
  pay amount c = elim (c.inner) [
    | none ↦ (failed session_closed, c)
    | some s ↦ paid (Session.pay mock_rail l.tx_hash amount s)
  ]

  abbrev pub settled :
      Result (Session.ChannelError MockRailError) (Settlement × Rail.ChannelTx)
      → Run Thrown CloseResult
  settled (ok (settlement, ct)) = done (record {
    local = decimal settlement.local;
    remote = decimal settlement.remote;
    settle = channel_tx ct;
  })
  settled (err e) = failed (close_failed e)

  -- `ChannelSession::close`: the session is taken out before the SDK's call.
  unfoldable pub close : ChannelSession → Run Thrown CloseResult × ChannelSession
  close c = elim (c.inner) [
    | none ↦ (failed session_closed, c)
    | some s ↦ (settled (Session.close mock_rail l.tx_hash s), record { inner = none })
  ]

-- `self.inner.as_ref().map(..).unwrap_or(0)` of the SDK's `remaining` and `spent`.
unfoldable pub remaining : ChannelSession → Bytes
remaining c = elim (c.inner) [ none ↦ decimal 0 | some s ↦ decimal (s.budget - s.spent) ]

unfoldable pub spent : ChannelSession → Bytes
spent c = elim (c.inner) [ none ↦ decimal 0 | some s ↦ decimal s.spent ]

abbrev pub is_some : {A : Type 0} → Option A → Bool
is_some none = false
is_some (some a) = true

unfoldable pub is_open : ChannelSession → Bool
is_open c = elim (c.inner) [ none ↦ false | some s ↦ is_some s.channel ]
