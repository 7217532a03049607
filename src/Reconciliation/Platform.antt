-- ===== src/Reconciliation/Platform.antt =====
-- What the kernel calls of hashlib, of `str.lower` and of difflib with floats; nothing is assumed
-- of their answers.
use veri_close.Prelude.{String, ℤ}

pub record Platform : Type 0 where
  -- hashlib.sha256(text.encode("utf-8")).hexdigest()
  pub sha256_hexdigest : String → String
  -- text.lower()
  pub lower : String → String
  -- round(weight * SequenceMatcher(None, a, b).ratio())
  pub ratio_score : ℤ → String → String → ℤ
  -- f"{SequenceMatcher(None, a, b).ratio():.4f}"
  pub ratio_text : String → String → String
