-- ===== src/Client/Closed.antt =====
-- What the browser's channel session shows, pays out and answers once it is closed.
use ckb_controller.Base.{ℕ, ◌-◌, ◌≡◌, refl, arith, ap, sym, ◌∙◌, false, some, [], Result, ok, err}
use ckb_controller.Bytes.{Bytes}
use ckb_controller.Text.Decimal.{decimal}
use ckb_controller.Run.{done, failed, >>=-eq-done}
use ckb_controller.Channel.Rail as Rail
use ckb_controller.Channel.Rail.{Settlement, MockRail, MockRailError, mock_rail}
use ckb_controller.Channel.Session as Session
use ckb_controller.Channel.Session.Budget.{Calls, close-conserves}
use ckb_controller.Client.{Libraries, arr32, script_from, session_closed}
use ckb_controller.Client.Channels.{
  CloseResult, ChannelSession, parse_outpoint, channel_tx, new, opened, open_session, paid, pay,
  settled, close, remaining, spent, is_open,
}

module _ (l : Libraries) where
  -- What the constructor built, and any calls of `open` and `pay` on it.
  pub data Used (start : ChannelSession) : ChannelSession → Type 0 where
    begin : Used start start
    opened_with :
        {c : ChannelSession}
        → Used start c
        → (peer : Bytes) (budget : ℕ) → Used start (open_session l peer budget c).1
    paid_with : {c : ChannelSession} → Used start c → (amount : ℕ) → Used start (pay l amount c).1

  -- Behind the object stands a session of the SDK, driven from a new one.
  record IsLive (c : ChannelSession) : Type 0 where
    cfg : Rail.ChannelConfig
    inner : Session.ChannelSession MockRail ℕ
    is : c.inner ≡ some inner
    calls : Calls l.tx_hash (Session.new mock_rail l.tx_hash cfg (record { channels = [] })) inner

  new-IsLive :
      (lock input : Bytes) (capacity : ℕ) (funding dep : Bytes) (c : ChannelSession)
      → new l lock input capacity funding dep ≡ done c
      → IsLive c
  unfolding new
  new-IsLive lock input capacity funding dep c e =
      let (account_lock, _, e₁) = >>=-eq-done (script_from l lock) _ e in
      let (funding_lock, _, e₂) = >>=-eq-done (script_from l funding) _ e₁ in
      let (out_point, _, e₃) = >>=-eq-done (parse_outpoint l input) _ e₂ in
      let (header, _, e₄) = >>=-eq-done (arr32 l dep) _ e₃ in
      let cfg : Rail.ChannelConfig = record {
        account_lock = account_lock;
        account_input = out_point;
        account_capacity = capacity;
        funding_lock = funding_lock;
        cell_deps = [];
        header_dep = header;
      } in
      let s = Session.new mock_rail l.tx_hash cfg (record { channels = [] }) in
      let shape : record { inner = some s } ≡ c = cc e₄ in
      record {
        cfg = cfg;
        inner = s;
        is = ap (λ (d : ChannelSession). d.inner) (sym shape);
        calls = Calls.begin;
      }

  opened-inner :
      (r : Result (Session.ChannelError MockRailError) Rail.ChannelTx
        × Session.ChannelSession MockRail ℕ)
      → (opened l r).1.inner ≡ some r.1
  opened-inner (ok ct, s) = refl
  opened-inner (err e, s) = refl

  paid-inner :
      (r : Result (Session.ChannelError MockRailError) (Unit {0})
        × Session.ChannelSession MockRail ℕ)
      → (paid l r).1.inner ≡ some r.1
  paid-inner (ok u, s) = refl
  paid-inner (err e, s) = refl

  open_session-IsLive :
      (peer : Bytes) (budget : ℕ) (c : ChannelSession)
      → IsLive c
      → IsLive (open_session l peer budget c).1
  unfolding open_session
  open_session-IsLive peer budget c v =
      let r = Session.open_session mock_rail l.tx_hash peer budget v.inner in
      record {
        cfg = v.cfg;
        inner = r.1;
        is = rw v.is (opened-inner r);
        calls = Calls.opened v.calls peer budget;
      }

  pay-IsLive : (amount : ℕ) (c : ChannelSession) → IsLive c → IsLive (pay l amount c).1
  unfolding pay
  pay-IsLive amount c v =
      let r = Session.pay mock_rail l.tx_hash amount v.inner in
      record {
        cfg = v.cfg;
        inner = r.1;
        is = rw v.is (paid-inner r);
        calls = Calls.paid v.calls amount;
      }

  Used-IsLive : {start c : ChannelSession} → IsLive start → Used start c → IsLive c
  Used-IsLive v begin = v
  Used-IsLive v (opened_with {c} used peer budget) =
      open_session-IsLive peer budget c (Used-IsLive v used)
  Used-IsLive v (paid_with {c} used amount) = pay-IsLive amount c (Used-IsLive v used)

  settled-done :
      (r : Result (Session.ChannelError MockRailError) (Settlement × Rail.ChannelTx))
      (out : CloseResult)
      → settled l r ≡ done out
      → (s : Settlement) × (ct : Rail.ChannelTx) × (r ≡ ok (s, ct))
        × (out.local ≡ decimal s.local)
        × (out.remote ≡ decimal s.remote)
  settled-done (ok (s, ct)) out e =
      let shape : record {
        local = decimal s.local;
        remote = decimal s.remote;
        settle = channel_tx l ct;
      }
          ≡ out =
        cc e in
      (
        s,
        ct,
        refl,
        ap (λ (o : CloseResult). o.local) (sym shape),
        ap (λ (o : CloseResult). o.remote) (sym shape),
      )
  settled-done (err x) out e = cc e

  -- What a closed session reports, and how it answers from then on.
  pub record IsClosed (c c' : ChannelSession) (out : CloseResult) : Type 0 where
    pub local : out.local ≡ remaining c
    pub remote : out.remote ≡ spent c
    pub pays : (amount : ℕ) → pay l amount c' ≡ (failed session_closed, c')
    pub opens :
        (peer : Bytes) (budget : ℕ) → open_session l peer budget c' ≡ (failed session_closed, c')
    pub closes : close l c' ≡ (failed session_closed, c')
    pub left : remaining c' ≡ decimal 0
    pub empty : spent c' ≡ decimal 0
    pub shut : is_open c' ≡ false

  -- Closing a session that the constructor built, after any calls of `open` and `pay`, reports as the
  -- parts of the account and of the peer what `remaining` and `spent` showed before; from then on
  -- `open`, `pay` and `close` throw that the session is closed, `remaining` and `spent` show 0, and
  -- `is_open` is false.
  pub close-IsClosed :
      (lock input : Bytes) (capacity : ℕ) (funding dep : Bytes) (start c : ChannelSession)
      (out : CloseResult)
      → new l lock input capacity funding dep ≡ done start
      → Used start c
      → (close l c).0 ≡ done out
      → IsClosed c (close l c).1 out
  unfolding close remaining spent is_open pay open_session
  close-IsClosed lock input capacity funding dep start c out built used e =
      let v = Used-IsLive (new-IsLive lock input capacity funding dep start built) used in
      let run : settled l (Session.close mock_rail l.tx_hash v.inner) ≡ done out = rw v.is at e in
      let (s, ct, closed, local, remote) =
        settled-done (Session.close mock_rail l.tx_hash v.inner) out run in
      let (whole, paid_out, within) =
        close-conserves l.tx_hash v.cfg (record { channels = [] }) v.inner s ct v.calls closed in
      let left : s.local ≡ v.inner.budget - v.inner.spent =
        omega (arith, whole, paid_out, within) in
      rw v.is (record {
        local = local ∙ ap decimal left;
        remote = remote ∙ ap decimal paid_out;
        pays = λ amount. refl;
        opens = λ peer budget. refl;
        closes = refl;
        left = refl;
        empty = refl;
        shut = refl;
      })
