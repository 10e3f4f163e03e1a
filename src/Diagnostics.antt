-- ===== src/Diagnostics.antt =====
-- src/diagnostics.rs: errors and warnings of the compiler, with the positions that it gives.
use typst_mcp.Common.{ℕ, suc, Option, none, some, List, [], ◌∷◌, ◌++◌, map}
use typst_mcp.Common.Text.{Str}

pub data Severity : Type 0 where
  error warning : Severity

pub record Diagnostic : Type 0 where
  pub severity : Severity
  pub file : Option Str
  pub line : Option ℕ
  pub col : Option ℕ
  pub message : Str
  pub hints : List Str

-- What the compiler's package tells of a diagnostic: the file of its span, the byte where its range
-- starts, if the file can be read, and the line and column of a byte, counted from 0.
pub record SourceDiagnostic : Type 0 where
  pub severity : Severity
  pub file : Option Str
  pub start : Option ℕ
  pub byte_to_line : ℕ → Option ℕ
  pub byte_to_column : ℕ → Option ℕ
  pub message : Str
  pub hints : List Str

abbrev position : Option Str → Option ℕ → (ℕ → Option ℕ) → Option ℕ
position (some file) (some start) of = elim (of start) [ none ↦ none | some n ↦ some (suc n) ]
position _ _ of = none

-- `Diagnostic::from_typst`.
pub from_typst : SourceDiagnostic → Diagnostic
from_typst d = record {
  severity = d.severity;
  file = d.file;
  line = position d.file d.start d.byte_to_line;
  col = position d.file d.start d.byte_to_column;
  message = d.message;
  hints = d.hints;
}

pub bare : Severity → Str → Diagnostic
bare severity message = record {
  severity = severity;
  file = none;
  line = none;
  col = none;
  message = message;
  hints = [];
}

pub with_hint : Diagnostic → Str → Diagnostic
with_hint d hint = record d { hints = d.hints ++ hint ∷ [] }

pub collect : List SourceDiagnostic → List Diagnostic
unfolding from_typst
collect diags = map from_typst diags
