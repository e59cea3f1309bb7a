-- ===== src/Tests/Paid.antt =====
-- A channel session of the browser that is opened, pays and is closed.
use ckb_controller.Base.{◌≡◌, refl, some, [], ◌∷◌, ◌++◌, replicate}
use ckb_controller.Bytes.{Bytes}
use ckb_controller.Text.{codes, trim_0x, to_digit, split_once, from_str_radix, read_digits}
use ckb_controller.Text.Hex.{hex}
use ckb_controller.Run.{done}
use ckb_controller.Channel.Rail as Rail
use ckb_controller.Channel.Session as Session
use ckb_controller.Channel.Rail.{mock_rail}
use ckb_controller.Text.Decimal.{decimal}
use ckb_controller.Client.{arr32, hexout}
use ckb_controller.Client.Channels.{
  ChannelSession, CloseResult, parse_outpoint, channel_tx, new, open_session, pay, close,
}
use ckb_controller.Client.Closed.{begin, opened_with, paid_with, IsClosed, close-IsClosed}
use ckb_controller.Tests.Browser.{unhex, libraries}

abbrev script_text : Bytes
script_text = hexout libraries (1 ∷ [])

abbrev config : Rail.ChannelConfig
config = record {
  account_lock = record { code_hash = replicate 32 9; hash_type = 1 ∷ []; args = 1 ∷ [] };
  account_input = record { tx_hash = replicate 32 2; index = 0 };
  account_capacity = 1000;
  funding_lock = record { code_hash = replicate 32 9; hash_type = 1 ∷ []; args = 1 ∷ [] };
  cell_deps = [];
  header_dep = replicate 32 0;
}

abbrev fresh : ChannelSession
fresh = record {
  inner = some (Session.new mock_rail libraries.tx_hash config (record { channels = [] }));
}

fresh_built :
    new libraries script_text
      (hexout libraries (replicate 32 2) ++ codes ":0")
      1000
      script_text
      (hexout libraries (replicate 32 0))
    ≡ done fresh
unfolding new parse_outpoint split_once codes from_str_radix read_digits to_digit arr32 hex unhex
    trim_0x
fresh_built = refl

abbrev spending : ChannelSession
spending = (pay libraries 20 (open_session libraries [] 50 fresh).1).1

abbrev settle : Rail.ChannelTx
settle =
    Rail.build_settle_tx config (record { tx_hash = replicate 32 0; index = 1 })
      (record { local = 30; remote = 20 })

abbrev receipt : CloseResult
receipt = record { local = decimal 30; remote = decimal 20; settle = channel_tx libraries settle }

spending_closed : (close libraries spending).0 ≡ done receipt
unfolding close pay open_session Session.open_on Session.pay_on Session.close_on Rail.mock_pay
    Rail.mock_close Rail.put Rail.build_funding_tx Rail.build_settle_tx
spending_closed = refl

close-IsClosed_example : IsClosed libraries spending (close libraries spending).1 receipt
close-IsClosed_example =
    close-IsClosed libraries script_text (hexout libraries (replicate 32 2) ++ codes ":0") 1000
      script_text (hexout libraries (replicate 32 0)) fresh spending receipt fresh_built
      (paid_with (opened_with begin [] 50) 20) spending_closed
