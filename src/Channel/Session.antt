-- ===== src/Channel/Session.antt =====
-- `ChannelSession`: it ties the transactions of the account to a rail.
pub mod Budget
use ckb_controller.Base.{
  ℕ, ◌+◌, ◌-◌, Bool, Option, none, some, List, [], ◌∷◌, Result, ok, err, ltb, if◌then◌else◌,
  map_err,
}
use ckb_controller.Bytes.{Bytes}
use ckb_controller.Host.{OutPoint, Transaction}
use ckb_controller.Channel.Rail.{
  Settlement, FiberRail, ChannelConfig, ChannelTx, build_funding_tx, build_settle_tx,
}

pub data ChannelError (E : Type 0) : Type 0 where
  not_open already_open : ChannelError E
  over_budget : ℕ → ℕ → ChannelError E
  rail_error : E → ChannelError E

pub record ChannelSession (R C : Type 0) : Type 0 where
  pub cfg : ChannelConfig
  pub rail : R
  pub channel : Option C
  pub funding : Option OutPoint
  pub budget : ℕ
  pub spent : ℕ

module _ {R C E : Type 0} (fiber : FiberRail R C E) (hash : Transaction → Bytes) where
  abbrev pub new : ChannelConfig → R → ChannelSession R C
  new cfg rail = record {
    cfg = cfg;
    rail = rail;
    channel = none;
    funding = none;
    budget = 0;
    spent = 0;
  }

  -- `ChannelTx::outpoint`; `hash` is the hash of the raw transaction.
  abbrev pub outpoint : ChannelTx → OutPoint
  outpoint t = record { tx_hash = hash t.tx; index = t.index }

  -- What `open` leaves after the rail answered.
  abbrev pub opened_by :
      ℕ
      → ChannelTx
      → ChannelSession R C
      → Result E C × R
      → Result (ChannelError E) ChannelTx × ChannelSession R C
  opened_by budget funding_tx s (ok c, rail) = (
    ok funding_tx,
    record s {
      rail = rail;
      channel = some c;
      funding = some (outpoint funding_tx);
      budget = budget;
      spent = 0;
    },
  )
  opened_by budget funding_tx s (err e, rail) = (err (rail_error e), record s { rail = rail })

  -- `open`, by the channel that is open.
  unfoldable pub open_on :
      Option C
      → Bytes
      → ℕ
      → ChannelSession R C
      → Result (ChannelError E) ChannelTx × ChannelSession R C
  open_on (some c) peer budget s = (err already_open, s)
  open_on none peer budget s =
      let funding_tx = build_funding_tx s.cfg budget in
      opened_by budget funding_tx s (fiber.open_channel peer budget (outpoint funding_tx) s.rail)

  -- `ChannelSession::open`
  abbrev pub open_session :
      Bytes → ℕ → ChannelSession R C → Result (ChannelError E) ChannelTx × ChannelSession R C
  open_session peer budget s = open_on s.channel peer budget s

  -- What `pay` leaves after the rail answered.
  abbrev pub paid_by :
      ℕ
      → ChannelSession R C
      → Result E (Unit {0}) × R
      → Result (ChannelError E) (Unit {0}) × ChannelSession R C
  paid_by amount s (ok _, rail) = (ok tt, record s { rail = rail; spent = s.spent + amount })
  paid_by amount s (err e, rail) = (err (rail_error e), record s { rail = rail })

  -- `pay`, by the channel that is open. `self.budget - self.spent` does not go below 0, since what
  -- is spent never exceeds the budget.
  unfoldable pub pay_on :
      Option C → ℕ → ChannelSession R C → Result (ChannelError E) (Unit {0}) × ChannelSession R C
  pay_on none amount s = (err not_open, s)
  pay_on (some c) amount s =
      let remaining = s.budget - s.spent in
      if ltb remaining amount
      then (err (over_budget remaining amount), s)
      else paid_by amount s (fiber.pay c amount s.rail)

  abbrev pub pay : ℕ → ChannelSession R C → Result (ChannelError E) (Unit {0}) × ChannelSession R C
  pay amount s = pay_on s.channel amount s

  -- What `close` returns after the rail answered; it consumes the session.
  abbrev pub closed_by :
      OutPoint
      → ChannelConfig
      → Result E Settlement
      → Result (ChannelError E) (Settlement × ChannelTx)
  closed_by funding cfg (ok settlement) = ok (settlement, build_settle_tx cfg funding settlement)
  closed_by funding cfg (err e) = err (rail_error e)

  -- `close`, by the channel that is open and its funding cell.
  unfoldable pub close_on :
      Option C
      → Option OutPoint
      → ChannelSession R C
      → Result (ChannelError E) (Settlement × ChannelTx)
  close_on none funding s = err not_open
  close_on (some c) none s = err not_open
  close_on (some c) (some funding) s = closed_by funding s.cfg (fiber.close c s.rail).0

  abbrev pub close : ChannelSession R C → Result (ChannelError E) (Settlement × ChannelTx)
  close s = close_on s.channel s.funding s
