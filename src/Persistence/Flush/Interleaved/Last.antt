-- ===== src/Persistence/Flush/Interleaved/Last.antt =====
-- The flush with which Run of internal/persistence/flush.go ends.
use grex.Persistence.Flush.Interleaved.Covered.{Covered}
