-- ===== src/Microbit/Signal.antt =====
-- What the power task of main.rs waits for and what it sends.
-- An `.await` on `select` is a step on the signal that arrives; which of several ready ones that is,
-- and when a ticker fires, is up to the environment.
use battery_tester.Prelude.{List}
use battery_tester.Common.{BiCommand, BiReply}

pub data Signal : Type 0 where
  -- a message of CMD_CH
  command : BiCommand → Signal
  -- the first ticker of the `select`: 100 ms in the control loop, the debounce time elsewhere
  tick : Signal
  -- `com_timeout_ticker`
  com_timeout : Signal
  -- the battery input
  bat_rising bat_high bat_low : Signal
  -- the button
  btn_fell btn_high : Signal

-- One poll of a waiting function: it waits on, or returns, with the replies that it put into
-- REPLY_CH in between; or it does not wait for this signal.
pub data Poll {ℓ κ} (S : Type ℓ) (R : Type κ) : Type (ℓ ⊔ κ) where
  waits : S → List BiReply → Poll S R
  returned : R → List BiReply → Poll S R
  unawaited : Poll S R
