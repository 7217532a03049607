-- ===== src/Application/Host.antt =====
-- What the services call of the `datetime` module: a `DateTime` leaves out the UTC offset, which
-- these read. Nothing is assumed of their answers.
use veri_close.Prelude.{ℕ, String, List, Result, join, take_str}
use veri_close.Domain.Events.{DateTime}
use veri_close.Reconciliation.Platform.{Platform}

pub record Host : Type 0 where
  pub platform : Platform
  -- datetime.isoformat()
  pub isoformat : DateTime → String
  -- date.isoformat()
  pub date_isoformat : ℕ → String
  -- the instant that a TIMESTAMPTZ column keeps
  pub instant : DateTime → ℕ
  -- int(text)
  pub parse_int : String → Result ℕ

-- _digest of application/actions.py, cut to its first 20 characters
unfoldable pub digest_20 : Host → List String → String
digest_20 host parts = take_str 20 (host.platform.sha256_hexdigest (join "|" parts))
