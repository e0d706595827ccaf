-- ===== src/Fabric/Paging.antt =====
-- agent/executor_v2.py, `_exec_read_chunked`: reading a file by pages of bytes. `decode` is
-- raw.decode(encoding, errors="replace") for the encoding that the task names.
pub mod Reassembly
use iddo_harness.Prelude.{
  ℕ, zero, suc, ◌+◌, max, String, Bool, true, false, Option, none, some, List, leb, length, take,
  drop, if◌then◌else◌,
}
use iddo_harness.Json.{ℤ, pos, negsuc}

pub record Page : Type 0 where
  pub offset : ℕ
  pub content : String
  pub total_size : ℕ
  pub next_offset : Option ℕ
  pub eof : Bool

-- max(low, n)
abbrev pub at_least : ℕ → ℤ → ℕ
at_least low (pos n) = max low n
at_least low (negsuc n) = low

unfoldable pub page_at : (List ℕ → String) → ℕ → ℕ → List ℕ → Page
page_at decode offset limit file =
    let raw = take limit (drop offset file) in
    let eof = leb (length file) (offset + length raw) in
    record {
      offset = offset;
      content = decode raw;
      total_size = length file;
      next_offset = if eof then none else some (offset + length raw);
      eof = eof;
    }

unfoldable pub read_chunked : (List ℕ → String) → ℤ → ℤ → List ℕ → Page
unfolding page_at
read_chunked decode offset limit_bytes file =
    page_at decode (at_least 0 offset) (at_least 1 limit_bytes) file
