-- ===== src/Buffer/Codes.antt =====
-- `BufferStatic::Result`
pub data Status : Type 0 where
  ok no_data buffer_full invalid_len invalid_usage : Status
