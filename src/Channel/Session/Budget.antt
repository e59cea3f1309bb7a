-- ===== src/Channel/Session/Budget.antt =====
-- The budget of a channel session on the in-memory rail.
use ckb_controller.Base.{
  ℕ, zero, suc, ◌+◌, ◌-◌, ◌≤◌, ◌≡◌, refl, arith, Option, none, some, List, [], ◌∷◌, ◌++◌, length,
  get_elem?, ok, ltb, checked_sub, Bool-cases, inl, inr, sym, ap, ◌∙◌, ltb→le, le→ltb,
}
use ckb_controller.Bytes.{Bytes}
use ckb_controller.Host.{OutPoint, Transaction}
use ckb_controller.Channel.Rail.{
  Settlement, FiberRail, MockRail, MockChannel, MockRailError, put, mock_pay, mock_close, mock_rail,
  ChannelConfig, ChannelTx,
}
use ckb_controller.Channel.Session.{
  ChannelSession, new, open_on, open_session, pay_on, pay, closed_by, close_on, close,
}

injective_some : {A : Type 0} {a b : A} → Path (Option A) (some a) (some b) → a ≡ b
injective_some e = cc

get_elem?-last :
    {A : Type 0} (xs : List A) (a : A) → get_elem? (xs ++ (a ∷ [])) (length xs) ≡ some a
get_elem?-last [] a = refl
get_elem?-last (x ∷ xs) a = get_elem?-last xs a

get_elem?-put :
    (i : ℕ) (ch c : MockChannel) (cs : List MockChannel)
    → get_elem? cs i ≡ some c
    → get_elem? (put i ch cs) i ≡ some ch
unfolding put
get_elem?-put i ch c [] e = cc
get_elem?-put zero ch c (d ∷ cs) e = refl
get_elem?-put (suc i) ch c (d ∷ cs) e = get_elem?-put i ch c cs e

-- The channel holds what is left of the budget, and the peer what was spent.
pub record IsHolding (rail : MockRail) (id budget spent : ℕ) : Type 0 where
  pub ch : MockChannel
  pub at : get_elem? rail.channels id ≡ some ch
  pub left : ch.local + spent ≡ budget
  pub earned : ch.remote ≡ spent

-- The books of a session: what is spent is within the budget, and an open channel agrees with it.
pub record IsBalanced (s : ChannelSession MockRail ℕ) : Type 0 where
  pub within : s.spent ≤ s.budget
  pub holding : (id : ℕ) → s.channel ≡ some id → IsHolding s.rail id s.budget s.spent

module _ (hash : Transaction → Bytes) where
  new-IsBalanced :
      (cfg : ChannelConfig) (rail : MockRail) → IsBalanced (new mock_rail hash cfg rail)
  new-IsBalanced cfg rail = record { within = omega arith; holding = λ id e. absurd (cc e) }

  open_on-IsBalanced :
      (o : Option ℕ) (peer : Bytes) (budget : ℕ) (s : ChannelSession MockRail ℕ)
      → IsBalanced s
      → IsBalanced (open_on mock_rail hash o peer budget s).1
  unfolding open_on
  open_on-IsBalanced (some id) peer budget s b = b
  open_on-IsBalanced none peer budget s b = record {
    within = omega arith;
    holding = λ id e. record {
      ch = record { local = budget; remote = 0 };
      at =
          rw (injective_some e) at
            (get_elem?-last s.rail.channels (record { local = budget; remote = 0 }));
      left = omega arith;
      earned = refl;
    };
  }

  mock_pay-found :
      (rail : MockRail) (id amount : ℕ) (ch : MockChannel) (left : ℕ)
      → get_elem? rail.channels id ≡ some ch
      → checked_sub ch.local amount ≡ some left
      → mock_pay id amount rail ≡ (
        ok tt,
        record {
          channels = put id (record { local = left; remote = ch.remote + amount }) rail.channels;
        },
      )
  unfolding mock_pay
  mock_pay-found rail id amount ch left at covered = rw (at, mock_pay, covered)

  mock_pay-IsHolding :
      (rail : MockRail) (id amount budget spent : ℕ)
      → IsHolding rail id budget spent
      → spent ≤ budget
      → amount ≤ budget - spent
      → (rail' : MockRail) × (mock_pay id amount rail ≡ (ok tt, rail'))
        × IsHolding rail' id budget (spent + amount)
  mock_pay-IsHolding rail id amount budget spent h within small =
      let covered : checked_sub h.ch.local amount ≡ some (h.ch.local - amount) =
        rw (le→ltb h.ch.local amount (omega (arith, h.left, small))) in
      let after : MockChannel = record {
        local = h.ch.local - amount;
        remote = h.ch.remote + amount;
      } in
      (
        record { channels = put id after rail.channels },
        mock_pay-found rail id amount h.ch (h.ch.local - amount) h.at covered,
        record {
          ch = after;
          at = get_elem?-put id after h.ch rail.channels h.at;
          left = omega (arith, h.left, small);
          earned = ap (λ n. n + amount) h.earned;
        },
      )

  pay_on-IsBalanced :
      (o : Option ℕ) (amount : ℕ) (s : ChannelSession MockRail ℕ)
      → s.channel ≡ o
      → IsBalanced s
      → IsBalanced (pay_on mock_rail hash o amount s).1
  unfolding pay_on
  pay_on-IsBalanced none amount s opened b = b
  pay_on-IsBalanced (some id) amount s opened b =
      elim (Bool-cases (ltb (s.budget - s.spent) amount)) [
        | inl over ↦ rw over b
        | inr fits ↦
            let small : amount ≤ s.budget - s.spent = ltb→le (s.budget - s.spent) amount fits in
            let (rail', paid, holds) =
              mock_pay-IsHolding s.rail id amount s.budget s.spent (b.holding id opened) b.within
                small in
            rw (fits, paid)
              (record {
                within = omega (arith, small, b.within);
                holding = λ id' e. rw (injective_some (sym opened ∙ e)) at holds;
              })
      ]

-- The calls that a session takes while it is open or not yet open.
pub data Calls (hash : Transaction → Bytes) (start : ChannelSession MockRail ℕ)
    : ChannelSession MockRail ℕ → Type 0 where
  begin : Calls hash start start
  opened :
      {s : ChannelSession MockRail ℕ}
      → Calls hash start s
      → (peer : Bytes) (budget : ℕ) → Calls hash start (open_session mock_rail hash peer budget s).1
  paid :
      {s : ChannelSession MockRail ℕ}
      → Calls hash start s
      → (amount : ℕ) → Calls hash start (pay mock_rail hash amount s).1

Calls-IsBalanced :
    (hash : Transaction → Bytes) (cfg : ChannelConfig) (rail : MockRail)
    {s : ChannelSession MockRail ℕ}
    → Calls hash (new mock_rail hash cfg rail) s
    → IsBalanced s
Calls-IsBalanced hash cfg rail begin = new-IsBalanced hash cfg rail
Calls-IsBalanced hash cfg rail (opened {s} calls peer budget) =
    open_on-IsBalanced hash s.channel peer budget s (Calls-IsBalanced hash cfg rail calls)
Calls-IsBalanced hash cfg rail (paid {s} calls amount) =
    pay_on-IsBalanced hash s.channel amount s refl (Calls-IsBalanced hash cfg rail calls)

closed_same :
    (fiber : FiberRail MockRail ℕ MockRailError) (hash : Transaction → Bytes) (funding : OutPoint)
    (cfg : ChannelConfig) (a b : Settlement) (t : ChannelTx)
    → closed_by fiber hash funding cfg (ok a) ≡ ok (b, t)
    → a ≡ b
closed_same fiber hash funding cfg a b t e = cc e

mock_close-found :
    (rail : MockRail) (id : ℕ) (ch : MockChannel)
    → get_elem? rail.channels id ≡ some ch
    → (mock_close id rail).0 ≡ ok (record { local = ch.local; remote = ch.remote })
unfolding mock_close
mock_close-found rail id ch at = rw (at, mock_close)

close_on-conserves :
    (hash : Transaction → Bytes) (o : Option ℕ) (f : Option OutPoint)
    (s : ChannelSession MockRail ℕ) (settlement : Settlement) (t : ChannelTx)
    → s.channel ≡ o
    → IsBalanced s
    → close_on mock_rail hash o f s ≡ ok (settlement, t)
    → (settlement.local + settlement.remote ≡ s.budget)
      × (settlement.remote ≡ s.spent)
      × (s.spent ≤ s.budget)
unfolding close_on
close_on-conserves hash none f s settlement t is_open b e = absurd (cc e)
close_on-conserves hash (some id) none s settlement t is_open b e = absurd (cc e)
close_on-conserves hash (some id) (some funding) s settlement t is_open b e =
    let h = b.holding id is_open in
    let settled : Settlement = record { local = h.ch.local; remote = h.ch.remote } in
    let found = mock_close-found s.rail id h.ch h.at in
    let same : settled ≡ settlement =
      closed_same mock_rail hash funding s.cfg settled settlement t
        (sym (ap (closed_by mock_rail hash funding s.cfg) found) ∙ e) in
    let left : h.ch.local ≡ settlement.local = ap (λ (x : Settlement). x.local) same in
    let gone : h.ch.remote ≡ settlement.remote = ap (λ (x : Settlement). x.remote) same in
    (omega (arith, left, gone, h.left, h.earned), sym gone ∙ h.earned, b.within)

-- Closing a session on the in-memory rail, after any opening and payments from a new one, pays out
-- the budget: to the peer what was spent, which is within the budget, and the rest to the account.
pub close-conserves :
    (hash : Transaction → Bytes) (cfg : ChannelConfig) (rail : MockRail)
    (s : ChannelSession MockRail ℕ) (settlement : Settlement) (t : ChannelTx)
    → Calls hash (new mock_rail hash cfg rail) s
    → close mock_rail hash s ≡ ok (settlement, t)
    → (settlement.local + settlement.remote ≡ s.budget)
      × (settlement.remote ≡ s.spent)
      × (s.spent ≤ s.budget)
close-conserves hash cfg rail s settlement t calls e =
    close_on-conserves hash s.channel s.funding s settlement t refl
      (Calls-IsBalanced hash cfg rail calls) e
