-- ===== src/Position/Tests.antt =====
-- The theorems on positions at concrete inputs.
use otxserver.Position.{Position}

abbrev temple : Position
temple = record { x = 160; y = 54; z = 7 }

abbrev depot : Position
depot = record { x = 100; y = 60; z = 7 }

abbrev step : Position
step = record { x = 60; y = 60; z = 1 }

abbrev market : Position
market = record { x = 150; y = 100; z = 8 }

abbrev reach : Position
reach = record { x = 50; y = 40; z = 1 }
