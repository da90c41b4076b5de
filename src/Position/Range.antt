-- ===== src/Position/Range.antt =====
-- The tests of nearness of src/position.h.
use otxserver.Position.{Position}
